-- ===== src/Cache.antt =====
-- crates/mail-mcp-core/src/cache.rs: the cache of messages, with a time to live for each entry.
--
-- `Lru` is the lru crate: what a cache holds, with the most recently used first, and what its
-- operations make of that. Instants are numbers, and `now` is what the clock shows.
pub mod Entries
pub mod Isolation
use mail_mcp.Base.{
  ℕ, zero, suc, ◌-◌, Bool, not, Option, none, some, List, [], ◌∷◌, ◌≡◌, true, false, if◌then◌else◌,
  Key, same, leb, filter, filter_map, nat_key, string_key, ◌==◌, ◌&&◌,
}
use mail_mcp.Base.Dict.{Dict, lookup, remove}
use mail_mcp.Base.Ids.{AccountId, MessageId}

abbrev pub CacheKey : Type 0
CacheKey = AccountId × MessageId

-- Two keys are the same.
unfoldable pub same_key : CacheKey → CacheKey → Bool
same_key j k = same j.0 k.0 && (j.1 == k.1)

abbrev pub take {ℓ} : {A : Type ℓ} → ℕ → List A → List A
take zero xs = []
take (suc n) [] = []
take (suc n) (x ∷ xs) = x ∷ take n xs

-- The value under a key, and the entries but for it.
abbrev pub at {ℓ} : {A : Type ℓ} → CacheKey → List (CacheKey × A) → Option A
at k [] = none
at k ((j, v) ∷ es) = if same_key k j then some v else at k es

abbrev pub without {ℓ} : {A : Type ℓ} → CacheKey → List (CacheKey × A) → List (CacheKey × A)
without k = filter (λ e. not (same_key k e.0))

-- `get` moves what it finds to the front.
abbrev pub used {ℓ} : {A : Type ℓ} → CacheKey → Option A → List (CacheKey × A) → List (CacheKey × A)
used k none es = es
used k (some v) es = (k, v) ∷ without k es

-- `LruCache`: the entries in order of use, and at most as many as its capacity.
pub record Lru (A : Type 0) : Type 1 where
  pub Cache : Type 0
  pub capacity : Cache → ℕ
  pub entries : Cache → List (CacheKey × A)
  pub new : ℕ → Cache
  pub put : CacheKey → A → Cache → Cache
  pub get : CacheKey → Cache → Option A × Cache
  pub pop : CacheKey → Cache → Cache
  pub entries-new : (n : ℕ) → entries (new n) ≡ []
  pub capacity-new : (n : ℕ) → capacity (new n) ≡ n
  pub entries-put :
      (k : CacheKey) (v : A) (c : Cache)
      → entries (put k v c) ≡ take (capacity c) ((k, v) ∷ without k (entries c))
  pub capacity-put : (k : CacheKey) (v : A) (c : Cache) → capacity (put k v c) ≡ capacity c
  pub get-at : (k : CacheKey) (c : Cache) → (get k c).0 ≡ at k (entries c)
  pub entries-get :
      (k : CacheKey) (c : Cache) → entries (get k c).1 ≡ used k (at k (entries c)) (entries c)
  pub capacity-get : (k : CacheKey) (c : Cache) → capacity (get k c).1 ≡ capacity c
  pub entries-pop : (k : CacheKey) (c : Cache) → entries (pop k c) ≡ without k (entries c)
  pub capacity-pop : (k : CacheKey) (c : Cache) → capacity (pop k c) ≡ capacity c

pub record CacheEntry (V : Type 0) : Type 0 where
  pub value : V
  pub inserted : ℕ

module _ {V : Type 0} (L : Lru (CacheEntry V)) where
  pub record MessageCache : Type 0 where
    pub inner : L.Cache
    pub ttl : ℕ

  -- `MessageCache::new`
  unfoldable pub new_cache : (capacity ttl : ℕ) → MessageCache
  new_cache capacity ttl = record { inner = L.new capacity; ttl = ttl }

  -- `put`
  unfoldable pub put : (now : ℕ) → AccountId → MessageId → V → MessageCache → MessageCache
  put now account msg value c = record c {
    inner = L.put (account, msg) (record { value = value; inserted = now }) c.inner;
  }

  -- The end of `get` for an entry that is missing or too old.
  unfoldable pub forget : AccountId → MessageId → L.Cache → MessageCache → Option V × MessageCache
  forget account msg g c = (none, record c { inner = L.pop (account, msg) g })

  -- `get`; `elapsed` stops at 0.
  unfoldable pub get : (now : ℕ) → AccountId → MessageId → MessageCache → Option V × MessageCache
  get now account msg c =
      let (found, g) = L.get (account, msg) c.inner in
      elim found [
        | none ↦ forget account msg g c
        | some entry ↦
            if leb (now - entry.inserted) c.ttl
            then (some entry.value, record c { inner = g })
            else forget account msg g c
      ]

  -- The keys that `invalidate_account` removes.
  unfoldable pub keys_of : AccountId → List (CacheKey × CacheEntry V) → List CacheKey
  keys_of account = filter_map (λ e. if same e.0.0 account then some e.0 else none)

  -- Its loop.
  unfoldable pub pop_all : List CacheKey → L.Cache → L.Cache
  pop_all [] g = g
  pop_all (k ∷ ks) g = pop_all ks (L.pop k g)

  -- `invalidate_account`
  unfoldable pub invalidate_account : AccountId → MessageCache → MessageCache
  invalidate_account account c = record c {
    inner = pop_all (keys_of account (L.entries c.inner)) c.inner;
  }
