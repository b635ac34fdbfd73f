-- ===== src/Cache/Entries.antt =====
-- What an lru cache holds under a key after each change of its entries.
use mail_mcp.Base.{
  ◌≡◌, ◌≢◌, refl, ◌↔◌, ℕ, zero, suc, true, any, none, some, List, [], ◌∷◌, arith, if◌then◌else◌,
  nat_key, ==_iff,
}
use mail_mcp.Cache.{CacheKey, same_key, take, at, without, used}

pub same_key_iff : (j k : CacheKey) → (same_key j k ≡ true) ↔ (j ≡ k)
unfolding same_key
same_key_iff j k = (
  λ e. elim (nat_key.dec j.0 k.0) as (λ _. j ≡ k) [
    | yes p ↦ ground (arith, p, ==_iff j.1 k.1)
    | no p ↦ ground (arith, p)
  ],
  λ e. rw e (ground (arith, ==_iff k.1 k.1)),
)

module _ {A : Type 0} where
  pub at-without :
      (j k : CacheKey) (es : List (CacheKey × A))
      → at j (without k es) ≡ (if same_key j k then none else at j es)
  at-without j k [] = ground arith
  at-without j k ((i, v) ∷ es) =
      ground (arith, same_key_iff j k, same_key_iff k i, same_key_iff j i, at-without j k es)

  pub at-take :
      (j : CacheKey) (n : ℕ) (es : List (CacheKey × A)) (v : A)
      → at j (take n es) ≡ some v
      → at j es ≡ some v
  at-take j zero es v h = cc
  at-take j (suc n) [] v h = cc
  at-take j (suc n) ((i, w) ∷ es) v h = ground (arith, at-take j n es v)

  pub at-used : (j k : CacheKey) (es : List (CacheKey × A)) → at j (used k (at k es) es) ≡ at j es
  at-used j k es = ground (arith, same_key_iff j k, at-without j k es)

  -- Popping some keys, one after the other.
  abbrev pub without_all : List CacheKey → List (CacheKey × A) → List (CacheKey × A)
  without_all [] es = es
  without_all (k ∷ ks) es = without_all ks (without k es)

  pub at-without_all :
      (j : CacheKey) (ks : List CacheKey) (es : List (CacheKey × A))
      → at j (without_all ks es) ≡ (if any (same_key j) ks then none else at j es)
  at-without_all j [] es = refl
  at-without_all j (k ∷ ks) es =
      ground (arith, at-without_all j ks (without k es), at-without j k es)

  pub at-take_first :
      (k : CacheKey) (n : ℕ) (v : A) (es : List (CacheKey × A))
      → n ≢ 0
      → at k (take n ((k, v) ∷ es)) ≡ some v
  at-take_first k zero v es h = absurd (h refl)
  at-take_first k (suc n) v es h = rw ((same_key_iff k k).1 refl) refl
