-- ===== src/Gmail/Parse/Bodies.antt =====
-- Which parts of a message are read as its bodies.
use Prim.Native.Char.{code}
use text.Mathlib.TextEquality.{Char-path}
use mail_mcp.Base.{
  ◌≡◌, refl, inl, inr, true, false, String, Option, none, some, List, [], ◌∷◌, arith, and_then,
  if◌then◌else◌, ==_iff, nat_key, Bool-cases,
}
use mail_mcp.Gmail.Parse.{
  PartInfo, RawPart, Walk, eq_lower, is_none, attach, decode_body, visit, walk_parts,
}
use mail_mcp.Gmail.Parse.Parts.{flatten, visit_all, walk_parts-visit_all}

-- `iter().find_map(f)`
abbrev pub find_map {ℓ κ} : {A : Type ℓ} {B : Type κ} → (A → Option B) → List A → Option B
find_map f [] = none
find_map f (x ∷ xs) = elim (f x) [ some y ↦ some y | none ↦ find_map f xs ]

eq_lower_unique : (s t u : String) → eq_lower s t ≡ true → eq_lower s u ≡ true → t ≡ u
unfolding eq_lower
eq_lower_unique String.[] String.[] String.[] h k = refl
eq_lower_unique String.[] String.[] (String.◌∷◌ _ _) h k = cc
eq_lower_unique String.[] (String.◌∷◌ _ _) u h k = cc
eq_lower_unique (String.◌∷◌ _ _) String.[] u h k = cc
eq_lower_unique (String.◌∷◌ _ _) (String.◌∷◌ _ _) String.[] h k = cc
eq_lower_unique (String.◌∷◌ c s) (String.◌∷◌ d t) (String.◌∷◌ e u) h k =
    let heads : code d ≡ code e = ground arith in
    let front : eq_lower s t ≡ true = ground arith in
    let back : eq_lower s u ≡ true = ground arith in
    cc (Char-path d e heads, eq_lower_unique s t u front back)

plain_not_html :
    (mime : String) → eq_lower mime "text/plain" ≡ true → eq_lower mime "text/html" ≡ false
plain_not_html mime h = elim (Bool-cases (eq_lower mime "text/html")) [
  | inr other ↦ other
  | inl both ↦ absurd (
      ground (
        arith,
        eq_lower_unique mime "text/plain" "text/html" h both,
        ==_iff "text/plain" "text/html",
      ))
]

-- What was found before, or else what is found now.
abbrev or_else : Option String → Option String → Option String
or_else (some t) o = some t
or_else none o = o

abbrev pub unread : Walk
unread = record { body_text = none; body_html = none; attachments = [] }

module _ (decode64 : String → Option String) where
  -- The decoded body of a part of the given type, in any case of letters.
  abbrev pub body_of : String → PartInfo → Option String
  body_of mime p =
      if eq_lower p.mime_type mime then and_then p.body (decode_body decode64) else none

  attach-bodies :
      (p : PartInfo) (w : Walk)
      → ((attach p w).body_text ≡ w.body_text) × ((attach p w).body_html ≡ w.body_html)
  unfolding attach
  attach-bodies p w = ground arith

  visit-body_text :
      (p : PartInfo) (w : Walk)
      → (visit decode64 p w).body_text ≡ or_else w.body_text (body_of "text/plain" p)
  unfolding visit is_none
  visit-body_text p w = ground (arith, attach-bodies p w)

  visit-body_html :
      (p : PartInfo) (w : Walk)
      → (visit decode64 p w).body_html ≡ or_else w.body_html (body_of "text/html" p)
  unfolding visit is_none
  visit-body_html p w = ground (arith, attach-bodies p w, plain_not_html p.mime_type)

  visit_all-bodies :
      (ps : List PartInfo) (w : Walk)
      → ((visit_all decode64 ps w).body_text
          ≡ or_else w.body_text (find_map (body_of "text/plain") ps))
        × ((visit_all decode64 ps w).body_html
            ≡ or_else w.body_html (find_map (body_of "text/html") ps))
  visit_all-bodies [] w = (ground arith, ground arith)
  visit_all-bodies (p ∷ ps) w =
      let (text, html) = visit_all-bodies ps (visit decode64 p w) in
      (ground (arith, text, visit-body_text p w), ground (arith, html, visit-body_html p w))

  -- The text body of a message is the first part of type text/plain that decodes, and its HTML body
  -- the first of type text/html that decodes, in the order of the parts with each before its
  -- sub-parts, at whatever depth, and whether or not the part has a file name.
  pub walk_parts-bodies :
      (root : RawPart)
      → ((walk_parts decode64 root unread).body_text
          ≡ find_map (body_of "text/plain") (flatten root))
        × ((walk_parts decode64 root unread).body_html
            ≡ find_map (body_of "text/html") (flatten root))
  walk_parts-bodies root =
      let (text, html) = visit_all-bodies (flatten root) unread in
      rw (walk_parts-visit_all decode64 root unread) (text, html)
