-- ===== src/Permissions/Rows.antt =====
-- The loop of `for_account` over an account's rows, before and after an upsert.
use mail_mcp.Base.{
  ◌≡◌, refl, ap, ◌∙◌, ◌≢◌, ◌⊎◌, inl, inr, String, Bool, true, false, ◌||◌, ◌==◌, ==_iff, some, List,
  [], ◌∷◌, ◌++◌, any, ok, arith, if◌then◌else◌, parsed, Bool-cases, map_err, Parsed, unknown, Error,
  >>=-eq-ok,
}
use mail_mcp.Base.Dict.{Dict, lookup, insert, lookup-insert}
use mail_mcp.Permissions.Category.{Category, category_key}
use mail_mcp.Permissions.Category
use mail_mcp.Permissions.Policy.{Policy}
use mail_mcp.Permissions.Policy
use mail_mcp.Permissions.Storage.{PermissionRow, has_key, select, upsert}
use mail_mcp.Permissions.Table.{insert_rows}
use mail_mcp.Permissions.Select.{
  names, update_rows, select-update, any-select, select-append, select_new,
}

map_err-eq-ok :
    {A : Type 0} (p : Parsed A) (f : String → Error) {a : A} → map_err p f ≡ ok a → p ≡ parsed a
map_err-eq-ok (parsed b) f h = cc
map_err-eq-ok (unknown s) f h = cc

insert_rows-cons :
    (cat pol : String) (rows : List (String × String)) (m : Dict Category Policy)
    {n : Dict Category Policy}
    → insert_rows ((cat, pol) ∷ rows) m ≡ ok n
    → (d : Category) × (p : Policy) × (Category.from_str cat ≡ parsed d)
      × (Policy.from_str pol ≡ parsed p)
      × (insert_rows rows (insert d p m) ≡ ok n)
unfolding insert_rows
insert_rows-cons cat pol rows m h =
    let (d, e, h') = >>=-eq-ok (map_err (Category.from_str cat) _) _ h in
    let (p, f, h'') = >>=-eq-ok (map_err (Policy.from_str pol) _) _ h' in
    (d, p, map_err-eq-ok _ _ e, map_err-eq-ok _ _ f, h'')

insert_rows-parsed :
    (cat pol : String) (rows : List (String × String)) (m : Dict Category Policy) (d : Category)
    (p : Policy)
    → Category.from_str cat ≡ parsed d
    → Policy.from_str pol ≡ parsed p
    → insert_rows ((cat, pol) ∷ rows) m ≡ insert_rows rows (insert d p m)
unfolding insert_rows
insert_rows-parsed cat pol rows m d p e f = rw (e, f)

-- Two tables that differ at `c` at most.
abbrev pub AgreeOff : Category → Dict Category Policy → Dict Category Policy → Type 0
AgreeOff c m n = (d : Category) → d ≢ c → lookup d m ≡ lookup d n

AgreeOff-insert :
    (c d : Category) (p p' : Policy) (m n : Dict Category Policy)
    → (d ≢ c → p ≡ p')
    → AgreeOff c m n
    → AgreeOff c (insert d p m) (insert d p' n)
AgreeOff-insert c d p p' m n same_p agree j ne =
    ground (arith, lookup-insert j d p m, lookup-insert j d p' n, agree j)

module _ (c : Category) (pol : Policy) where
  hit-eq :
      (cat : String) (d : Category)
      → Category.from_str cat ≡ parsed d
      → (cat == Category.as_str c) ≡ true
      → d ≡ c
  hit-eq cat d e hit =
      let same_name = (==_iff cat (Category.as_str c)).0 hit in
      ground (arith, Category.from_str-as_str c)

  miss-ne :
      (cat : String) (d : Category)
      → Category.from_str cat ≡ parsed d
      → (cat == Category.as_str c) ≡ false
      → c ≢ d
  miss-ne cat d e miss same_c =
      ground (arith, Category.as_str-from_str cat d e, ==_iff cat (Category.as_str c))

  updated-parsed :
      (hits : Bool) (p0 : String) (p : Policy)
      → Policy.from_str p0 ≡ parsed p
      → Policy.from_str (if hits then Policy.as_str pol else p0) ≡ parsed (if hits then pol else p)
  updated-parsed true p0 p f = Policy.from_str-as_str pol
  updated-parsed false p0 p f = f

  updated_other :
      (cat : String) (d : Category) (p : Policy)
      → Category.from_str cat ≡ parsed d
      → d ≢ c
      → p ≡ (if cat == Category.as_str c then pol else p)
  updated_other cat d p e ne = ground (arith, hit-eq cat d e)

  updated_set :
      (cat : String) (d : Category) (p : Policy) (rows : List (String × String))
      (m' : Dict Category Policy)
      → Category.from_str cat ≡ parsed d
      → (((cat == Category.as_str c) || any (names (Category.as_str c)) rows) ≡ true)
        ⊎ (lookup c m' ≡ some pol)
      → (any (names (Category.as_str c)) rows ≡ true)
        ⊎ (lookup c (insert d (if cat == Category.as_str c then pol else p) m') ≡ some pol)
  updated_set cat d p rows m' e set = elim (Bool-cases (cat == Category.as_str c)) [
    | inl hit ↦ inr (rw hit (ground (arith, hit-eq cat d e hit, lookup-insert c d pol m')))
    | inr miss ↦ rw miss (ground (arith, miss-ne cat d e miss, lookup-insert c d p m'))
  ]

  -- The loop over rows of which those of `c` have been set to `pol`.
  insert_rows-update :
      (rows : List (String × String)) (m m' n : Dict Category Policy)
      → insert_rows rows m ≡ ok n
      → AgreeOff c m m'
      → (any (names (Category.as_str c)) rows ≡ true) ⊎ (lookup c m' ≡ some pol)
      → (n' : Dict Category Policy) × (insert_rows
            (update_rows (Category.as_str c) (Policy.as_str pol) rows)
            m'
          ≡ ok n')
        × AgreeOff c n n'
        × (lookup c n' ≡ some pol)
  unfolding insert_rows update_rows
  insert_rows-update [] m m' n h agree set =
      (m', refl, λ d ne. ground (arith, agree d ne), ground arith)
  insert_rows-update ((cat, p0) ∷ rows) m m' n h agree set =
      let (d, p, e, f, h') = insert_rows-cons cat p0 rows m h in
      let hits : Bool = cat == Category.as_str c in
      let p' : Policy = if hits then pol else p in
      let (n', r, agree', set') =
        insert_rows-update rows (insert d p m) (insert d p' m') n h'
          (AgreeOff-insert c d p p' m m' (updated_other cat d p e) agree)
          (updated_set cat d p rows m' e set) in
      (n', insert_rows-parsed cat _ _ m' d p' e (updated-parsed hits p0 p f) ∙ r, agree', set')

insert_rows-nil : (m n : Dict Category Policy) → insert_rows [] m ≡ ok n → m ≡ n
unfolding insert_rows
insert_rows-nil m n h = cc

insert_rows-nil_ok : (m : Dict Category Policy) → insert_rows [] m ≡ ok m
unfolding insert_rows
insert_rows-nil_ok m = refl

insert_rows-append :
    (rows : List (String × String)) (cat pol : String) (m n : Dict Category Policy)
    → insert_rows rows m ≡ ok n
    → insert_rows (rows ++ (cat, pol) ∷ []) m ≡ insert_rows ((cat, pol) ∷ []) n
insert_rows-append [] cat pol m n h = ap (insert_rows ((cat, pol) ∷ [])) (insert_rows-nil m n h)
insert_rows-append ((c0, p0) ∷ rows) cat pol m n h =
    let (d, p, e, f, h') = insert_rows-cons c0 p0 rows m h in
    insert_rows-parsed c0 p0 _ m d p e f ∙ insert_rows-append rows cat pol (insert d p m) n h'

-- The table of an account after an upsert of (`c`, `pol`) into its rows.
pub insert_rows-upsert :
    (account : String) (c : Category) (pol : Policy) (rows : List PermissionRow)
    (m n : Dict Category Policy)
    → insert_rows (select account rows) m ≡ ok n
    → (n' : Dict Category Policy) × (insert_rows
          (select account (upsert account (Category.as_str c) (Policy.as_str pol) rows))
          m
        ≡ ok n')
      × AgreeOff c n n'
      × (lookup c n' ≡ some pol)
unfolding upsert
insert_rows-upsert account c pol rows m n h =
    let key = Category.as_str c in
    let val = Policy.as_str pol in
    elim (Bool-cases (any (has_key account key) rows)) [
      | inl old ↦
          rw (old, select-update account key val rows)
            (insert_rows-update c pol (select account rows) m m n h (λ d ne. refl)
              (inl (any-select account key val rows ∙ old)))
      | inr new ↦
          rw (new, select-append account key val rows _, select_new account key val)
            (
              insert c pol n,
              insert_rows-append (select account rows) key val m n h
                  ∙ insert_rows-parsed key val [] n c pol (Category.from_str-as_str c)
                      (Policy.from_str-as_str pol)
                  ∙ insert_rows-nil_ok (insert c pol n),
              (λ d ne. ground (arith, lookup-insert d c pol n)),
              ground (arith, lookup-insert c c pol n),
            )
    ]
