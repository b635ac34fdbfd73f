-- ===== src/Cache/Isolation.antt =====
-- What the cache answers, against a specification that forgets nothing.
use mail_mcp.Base.{
  ℕ, ◌-◌, ◌≤◌, ◌≡◌, ◌≢◌, refl, sym, ap, ◌∙◌, inl, inr, true, false, any, Option, none, some, List,
  [], ◌∷◌, arith, if◌then◌else◌, same, nat_key, leb→le, le→leb, Option-cases,
}
use mail_mcp.Base.Ids.{AccountId, MessageId}
use mail_mcp.Cache.{
  CacheKey, same_key, at, without, Lru, CacheEntry, MessageCache, new_cache, put, get, forget,
  keys_of, pop_all, invalidate_account,
}
use mail_mcp.Cache.Entries.{
  same_key_iff, at-without, at-take, at-take_first, at-used, without_all, at-without_all,
}

module _ {V : Type 0} (L : Lru (CacheEntry V)) where
  -- What a cache is asked to do, with what the clock shows.
  pub data Operation : Type 0 where
    store : (now : ℕ) → AccountId → MessageId → V → Operation
    fetch : (now : ℕ) → AccountId → MessageId → Operation
    invalidate : AccountId → Operation

  unfoldable pub run_one : Operation → MessageCache L → MessageCache L
  run_one (store now account msg value) c = put L now account msg value c
  run_one (fetch now account msg) c = (get L now account msg c).1
  run_one (invalidate account) c = invalidate_account L account c

  unfoldable pub run : List Operation → MessageCache L → MessageCache L
  run [] c = c
  run (op ∷ ops) c = run ops (run_one op c)

  -- The entry that an operation leaves for a key, given the one before.
  unfoldable pub latest_one : CacheKey → Operation → Option (CacheEntry V) → Option (CacheEntry V)
  latest_one k (store now account msg value) before =
      if same_key k (account, msg) then some (record { value = value; inserted = now }) else before
  latest_one k (fetch now account msg) before = before
  latest_one k (invalidate account) before = if same account k.0 then none else before

  -- The last value that was put under a key since its account was last invalidated.
  unfoldable pub latest : CacheKey → List Operation → Option (CacheEntry V) → Option (CacheEntry V)
  latest k [] before = before
  latest k (op ∷ ops) before = latest k ops (latest_one k op before)

  abbrev held : CacheKey → MessageCache L → Option (CacheEntry V)
  held k c = at k (L.entries c.inner)

  same_key-account : (j k : CacheKey) → same_key j k ≡ true → j.0 ≡ k.0
  same_key-account j k h = ap (λ (x : CacheKey). x.0) ((same_key_iff j k).0 h)

  any-keys_of :
      (k : CacheKey) (account : AccountId) (es : List (CacheKey × CacheEntry V))
      → any (same_key k) (keys_of L account es) ≡ true
      → account ≡ k.0
  unfolding keys_of
  any-keys_of k account [] h = cc
  any-keys_of k account ((i, e) ∷ es) h =
      ground (arith, same_key-account k i, any-keys_of k account es)

  at-keys_of :
      (k : CacheKey) (account : AccountId) (es : List (CacheKey × CacheEntry V))
      → any (same_key k) (keys_of L account es) ≡ false
      → account ≡ k.0
      → at k es ≡ none
  unfolding keys_of
  at-keys_of k account [] h e = refl
  at-keys_of k account ((i, v) ∷ es) h e =
      ground (arith, same_key-account k i, at-keys_of k account es)

  at-invalidated :
      (k : CacheKey) (account : AccountId) (es : List (CacheKey × CacheEntry V))
      → (if any (same_key k) (keys_of L account es) then none else at k es)
        ≡ (if same account k.0 then none else at k es)
  at-invalidated k account es = ground (arith, any-keys_of k account es, at-keys_of k account es)

  entries-pop_all :
      (ks : List CacheKey) (g : L.Cache) → L.entries (pop_all L ks g) ≡ without_all ks (L.entries g)
  unfolding pop_all
  entries-pop_all [] g = refl
  entries-pop_all (k ∷ ks) g =
      entries-pop_all ks (L.pop k g) ∙ ap (without_all ks) (L.entries-pop k g)

  -- Invalidating forgets the account's entries and no others.
  held-invalidate_account :
      (k : CacheKey) (account : AccountId) (c : MessageCache L)
      → held k (invalidate_account L account c) ≡ (if same account k.0 then none else held k c)
  unfolding invalidate_account
  held-invalidate_account k account c =
      ap (at k) (entries-pop_all (keys_of L account (L.entries c.inner)) c.inner)
      ∙ (at-without_all k (keys_of L account (L.entries c.inner)) (L.entries c.inner)
          ∙ at-invalidated k account (L.entries c.inner))

  held-put :
      (k : CacheKey) (now : ℕ) (account : AccountId) (msg : MessageId) (value : V)
      (c : MessageCache L) (e : CacheEntry V)
      → held k (put L now account msg value c) ≡ some e
      → latest_one k (store now account msg value) (held k c) ≡ some e
  unfolding put latest_one
  held-put k now account msg value c e h =
      let stored : CacheEntry V = record { value = value; inserted = now } in
      ground (
        arith,
        at-take k (L.capacity c.inner)
            (((account, msg), stored) ∷ without (account, msg) (L.entries c.inner)) e
            (sym (ap (at k) (L.entries-put (account, msg) stored c.inner)) ∙ h),
        at-without k (account, msg) (L.entries c.inner),
        same_key_iff k (account, msg),
      )

  held-get :
      (k : CacheKey) (now : ℕ) (account : AccountId) (msg : MessageId) (c : MessageCache L)
      (e : CacheEntry V)
      → held k (get L now account msg c).1 ≡ some e
      → held k c ≡ some e
  unfolding get forget
  held-get k now account msg c e h =
      let asked : CacheKey = (account, msg) in
      let found : MessageCache L → Option (CacheEntry V) = λ c. (L.get asked c.inner).0 in
      let kept : at k (L.entries (L.get asked c.inner).1) ≡ held k c =
        ap (at k) (L.entries-get asked c.inner) ∙ at-used k asked (L.entries c.inner) in
      let popped : at k (L.entries (L.pop asked (L.get asked c.inner).1))
          ≡ (if same_key k asked then none else held k c) =
        ap (at k) (L.entries-pop asked (L.get asked c.inner).1)
        ∙ (at-without k asked (L.entries (L.get asked c.inner).1)
            ∙ ap (λ o. if same_key k asked then none else o) kept) in
      ground (arith, kept, popped, h)

  store_sound :
      (k : CacheKey) (now : ℕ) (account : AccountId) (msg : MessageId) (value : V)
      (before held : Option (CacheEntry V)) (e : CacheEntry V)
      → (held ≡ some e → before ≡ some e)
      → latest_one k (store now account msg value) held ≡ some e
      → latest_one k (store now account msg value) before ≡ some e
  unfolding latest_one
  store_sound k now account msg value before held e sound h = ground arith

  latest_one-invalidate :
      (k : CacheKey) (account : AccountId) (before : Option (CacheEntry V))
      → latest_one k (invalidate account) before ≡ (if same account k.0 then none else before)
  unfolding latest_one
  latest_one-invalidate k account before = refl

  -- Whatever is held was the last thing put under its key since the account was invalidated.
  run-latest :
      (k : CacheKey) (ops : List Operation) (before : Option (CacheEntry V)) (c : MessageCache L)
      (e : CacheEntry V)
      → ((e : CacheEntry V) → held k c ≡ some e → before ≡ some e)
      → held k (run ops c) ≡ some e
      → latest k ops before ≡ some e
  unfolding run latest run_one latest_one
  run-latest k [] before c e sound h = sound e h
  run-latest k (store now account msg value ∷ ops) before c e sound h =
      run-latest k ops (latest_one k (store now account msg value) before)
        (put L now account msg value c) e
        (λ e' h'.
          store_sound k now account msg value before (held k c) e' (sound e')
            (held-put k now account msg value c e' h'))
        h
  run-latest k (fetch now account msg ∷ ops) before c e sound h =
      run-latest k ops before (get L now account msg c).1 e
        (λ e' h'. sound e' (held-get k now account msg c e' h')) h
  run-latest k (invalidate account ∷ ops) before c e sound h =
      run-latest k ops (latest_one k (invalidate account) before) (invalidate_account L account c) e
        (λ e' h'. ground (
          arith,
          sound e',
          held-invalidate_account k account c,
          latest_one-invalidate k account before,
        ))
        h

  get-held :
      (now : ℕ) (account : AccountId) (msg : MessageId) (c : MessageCache L) (value : V)
      → (get L now account msg c).0 ≡ some value
      → (e : CacheEntry V) × (held (account, msg) c ≡ some e)
        × (e.value ≡ value)
        × (now - e.inserted ≤ c.ttl)
  unfolding get forget
  get-held now account msg c value h = elim (Option-cases (L.get (account, msg) c.inner).0) [
    | inl missing ↦ absurd (ground (arith, missing, h))
    | inr (e, found) ↦ (
      e,
      sym (L.get-at (account, msg) c.inner) ∙ found,
      ground (arith, found, h),
      ground (arith, found, h, leb→le (now - e.inserted) c.ttl),
    )
  ]

  run_one-ttl : (op : Operation) (c : MessageCache L) → (run_one op c).ttl ≡ c.ttl
  unfolding run_one put get forget invalidate_account
  run_one-ttl (store now account msg value) c = refl
  run_one-ttl (fetch now account msg) c = ground arith
  run_one-ttl (invalidate account) c = refl

  run-ttl : (ops : List Operation) (c : MessageCache L) → (run ops c).ttl ≡ c.ttl
  unfolding run
  run-ttl [] c = refl
  run-ttl (op ∷ ops) c = run-ttl ops (run_one op c) ∙ run_one-ttl op c

  -- Whatever was asked of a new cache before, a value that `get` returns is the last that was put for
  -- this account and message, no older than the time to live, and the account was not invalidated
  -- since it was put. The cache may forget, but it never mixes up accounts or messages.
  pub get-latest :
      (capacity ttl : ℕ) (ops : List Operation) (now : ℕ) (account : AccountId) (msg : MessageId)
      (value : V)
      → (get L now account msg (run ops (new_cache L capacity ttl))).0 ≡ some value
      → (e : CacheEntry V) × (latest (account, msg) ops none ≡ some e)
        × (e.value ≡ value)
        × (now - e.inserted ≤ ttl)
  unfolding new_cache
  get-latest capacity ttl ops now account msg value h =
      let c = new_cache L capacity ttl in
      let (e, here, same_value, young) = get-held now account msg (run ops c) value h in
      (
        e,
        run-latest (account, msg) ops none c e
            (λ e' h'. ground (arith, ap (at (account, msg)) (L.entries-new capacity), h')) here,
        same_value,
        rw (sym (run-ttl ops c)) young,
      )

  -- What was just put is returned, unless the cache has no room at all, as long as it is no older
  -- than the time to live.
  pub get-put :
      (put_at now : ℕ) (account : AccountId) (msg : MessageId) (value : V) (c : MessageCache L)
      → L.capacity c.inner ≢ 0
      → now - put_at ≤ c.ttl
      → (get L now account msg (put L put_at account msg value c)).0 ≡ some value
  unfolding get put
  get-put put_at now account msg value c room young =
      let stored : CacheEntry V = record { value = value; inserted = put_at } in
      let found : (L.get (account, msg) (L.put (account, msg) stored c.inner)).0 ≡ some stored =
        L.get-at (account, msg) (L.put (account, msg) stored c.inner)
        ∙ (ap (at (account, msg)) (L.entries-put (account, msg) stored c.inner)
            ∙ at-take_first (account, msg) (L.capacity c.inner) stored
                (without (account, msg) (L.entries c.inner)) room) in
      ground (arith, found, le→leb (now - put_at) c.ttl)
