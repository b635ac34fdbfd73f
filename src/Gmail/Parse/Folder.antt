-- ===== src/Gmail/Parse/Folder.antt =====
-- The folder of a message among its labels.
use mail_mcp.Base.{
  ◌≡◌, sym, subst, inl, inr, Bool, true, String, some, List, [], ◌∷◌, arith, any, filter, not, IsIn,
  ◌==◌, ==_iff, Bool-cases,
}
use mail_mcp.Gmail.Parse.{is_system_label, labels_of, first_folder, primary_folder}

any-IsIn : (f : String) (ids : List String) → any (λ id. id == f) ids ≡ true → IsIn f ids
any-IsIn f [] h = cc
any-IsIn f (id ∷ ids) h = elim (Bool-cases (id == f)) [
  | inl hit ↦ inl (sym ((==_iff id f).0 hit))
  | inr miss ↦ inr (any-IsIn f ids (ground arith))
]

first_folder-IsIn :
    (ids candidates : List String) (f : String)
    → first_folder ids candidates ≡ some f
    → IsIn f ids × IsIn f candidates
unfolding first_folder
first_folder-IsIn ids [] f h = cc
first_folder-IsIn ids (sys ∷ more) f h = elim (Bool-cases (any (λ id. id == sys) ids)) [
  | inl present ↦
      let e : sys ≡ f = ground (arith, present) in
      (subst (λ x. IsIn x ids) e (any-IsIn sys ids present), inl (sym e))
  | inr missing ↦
      let (here, there) = first_folder-IsIn ids more f (ground (arith, missing)) in
      (here, inr there)
]

candidate-is_system_label :
    (ids : List String) (f : String) → primary_folder ids ≡ some f → is_system_label f ≡ true
unfolding primary_folder is_system_label
candidate-is_system_label ids f h =
    let (here, candidate) = first_folder-IsIn ids _ f h in
    ground (
      arith,
      candidate,
      ==_iff f "INBOX",
      ==_iff f "SENT",
      ==_iff f "TRASH",
      ==_iff f "DRAFT",
      ==_iff f "SPAM",
    )

filter-IsIn :
    (p : String → Bool) (f : String) (ids : List String) → IsIn f (filter p ids) → p f ≡ true
filter-IsIn p f [] h = absurd h
filter-IsIn p f (id ∷ ids) h = ground (arith, filter-IsIn p f ids)

-- The folder that a message is given is one of its label ids, and is never listed among the labels
-- of the message.
pub primary_folder-labels_of :
    (ids : List String) (f : String)
    → primary_folder ids ≡ some f
    → IsIn f ids × (¬ IsIn f (labels_of ids))
unfolding primary_folder labels_of
primary_folder-labels_of ids f h = (
  (first_folder-IsIn ids _ f h).0,
  λ listed. ground (
    arith,
    filter-IsIn (λ id. not (is_system_label id)) f ids listed,
    candidate-is_system_label ids f h,
  ),
)
