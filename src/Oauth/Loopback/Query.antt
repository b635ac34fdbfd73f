-- ===== src/Oauth/Loopback/Query.antt =====
-- The loop over the pairs of a query: where a parameter's value comes from.
use mail_mcp.Base.{
  ◌≡◌, refl, sym, ap, subst, ◌≢◌, ◌⊎◌, inl, inr, String, Option, none, some, List, [], ◌∷◌, arith,
  IsIn, ◌==◌, ==_iff, if◌then◌else◌,
}
use mail_mcp.Oauth.Loopback.{Params, key_value, set_param, set_params}

-- The variable that a key is kept in.
unfoldable pub field : String → Params → Option String
field key p =
    if key == "code"
    then p.code
    else if key == "state"
    then p.state
    else if key == "error"
    then p.error
    else none

field-set_param :
    (key k v w : String) (p : Params)
    → field key (set_param k v p) ≡ some w
    → (field key p ≡ some w) ⊎ ((k ≡ key) × (v ≡ w))
unfolding field set_param
field-set_param key k v w p h = ground (
  arith,
  ==_iff k "code",
  ==_iff k "state",
  ==_iff k "error",
  ==_iff key "code",
  ==_iff key "state",
  ==_iff key "error",
)

field-set_param_kept :
    (key k v : String) (p : Params) → field key p ≢ none → field key (set_param k v p) ≢ none
unfolding field set_param
field-set_param_kept key k v p h = ground arith

field-set_param_error :
    (k v : String) (p : Params) → k ≡ "error" → field "error" (set_param k v p) ≢ none
unfolding field set_param
field-set_param_error k v p h =
    subst (λ key. field "error" (set_param key v p) ≢ none) (sym h) (ground arith)

module _ (percent_decode : String → String) where
  abbrev pub HasPair : String → String → List String → Type 0
  HasPair k v pairs = (pair : String) × IsIn pair pairs × (key_value percent_decode pair ≡ (k, v))

  pub set_params-field :
      (key : String) (pairs : List String) (p : Params) (w : String)
      → field key (set_params percent_decode pairs p) ≡ some w
      → (field key p ≡ some w) ⊎ HasPair key w pairs
  unfolding set_params
  set_params-field key [] p w h = inl h
  set_params-field key (pair ∷ pairs) p w h =
      let kv = key_value percent_decode pair in
      elim (set_params-field key pairs (set_param kv.0 kv.1 p) w h) [
        | inr (found, here, e) ↦ inr (found, inr here, e)
        | inl now ↦ elim (field-set_param key kv.0 kv.1 w p now) [
          | inl before ↦ inl before
          | inr (same_key, same_value) ↦ inr (pair, inl refl, cc (same_key, same_value))
        ]
      ]

  set_params-field_kept :
      (key : String) (pairs : List String) (p : Params)
      → field key p ≢ none
      → field key (set_params percent_decode pairs p) ≢ none
  unfolding set_params
  set_params-field_kept key [] p h = h
  set_params-field_kept key (pair ∷ pairs) p h =
      let kv = key_value percent_decode pair in
      set_params-field_kept key pairs (set_param kv.0 kv.1 p)
        (field-set_param_kept key kv.0 kv.1 p h)

  pub set_params-error :
      (v : String) (pairs : List String) (p : Params)
      → HasPair "error" v pairs
      → field "error" (set_params percent_decode pairs p) ≢ none
  unfolding set_params
  set_params-error v [] p (pair, here, e) = absurd here
  set_params-error v (first ∷ pairs) p (pair, inr later, e) =
      let kv = key_value percent_decode first in
      set_params-error v pairs (set_param kv.0 kv.1 p) (pair, later, e)
  set_params-error v (first ∷ pairs) p (pair, inl now, e) =
      let kv = key_value percent_decode first in
      set_params-field_kept "error" pairs (set_param kv.0 kv.1 p) (
        field-set_param_error kv.0 kv.1 p
          (ap (λ x. x.0) (subst (λ x. key_value percent_decode x ≡ ("error", v)) now e)))
