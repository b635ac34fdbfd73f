-- ===== src/Examples/Caching.antt =====
-- A cache of three messages of two accounts, over lists.
use mail_mcp.Base.{◌≡◌, ◌≤◌, ◌-◌, refl, ℕ, String, some, none, List, [], ◌∷◌, nat_key, string_key}
use mail_mcp.Cache.{
  CacheKey, same_key, take, at, without, used, Lru, CacheEntry, new_cache, put, get, forget,
  keys_of, pop_all, invalidate_account,
}
use mail_mcp.Cache.Isolation.{
  Operation, store, fetch, invalidate, run_one, run, latest_one, latest, get-latest,
}

caching : Unit {0}
unfolding same_key new_cache put get forget keys_of pop_all invalidate_account run_one run
    latest_one latest nat_key
caching = tt

abbrev listed : (A : Type 0) → Lru A
listed A = record {
  Cache = ℕ × List (CacheKey × A);
  capacity = λ c. c.0;
  entries = λ c. c.1;
  new = λ n. (n, []);
  put = λ k v c. (c.0, take c.0 ((k, v) ∷ without k c.1));
  get = λ k c. (at k c.1, (c.0, used k (at k c.1) c.1));
  pop = λ k c. (c.0, without k c.1);
  entries-new = λ n. refl;
  capacity-new = λ n. refl;
  entries-put = λ k v c. refl;
  capacity-put = λ k v c. refl;
  get-at = λ k c. refl;
  entries-get = λ k c. refl;
  capacity-get = λ k c. refl;
  entries-pop = λ k c. refl;
  capacity-pop = λ k c. refl;
}

abbrev texts : Lru (CacheEntry String)
texts = listed (CacheEntry String)

abbrev asked : List (Operation texts)
asked =
    store 10 1 "a" "old"
    ∷ store 20 2 "a" "other"
    ∷ store 30 1 "a" "new"
    ∷ invalidate 2
    ∷ fetch 40 1 "a"
    ∷ []

got : (get texts 50 1 "a" (run texts asked (new_cache texts 2 60))).0 ≡ some "new"
unfolding caching
got = refl

-- The account that was invalidated has nothing left.
invalidated : (get texts 50 2 "a" (run texts asked (new_cache texts 2 60))).0 ≡ none
unfolding caching
invalidated = refl

get-latest_example :
    (e : CacheEntry String) × (latest texts (1, "a") asked none ≡ some e)
    × (e.value ≡ "new")
    × (50 - e.inserted ≤ 60)
get-latest_example = get-latest texts 2 60 asked 50 1 "a" "new" got
