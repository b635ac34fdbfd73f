-- ===== src/Gmail/Parse/Parts.antt =====
-- The walk over a tree of parts is a walk over the list of its parts, each before its sub-parts.
use mail_mcp.Base.{◌≡◌, refl, sym, ap, ◌∙◌, String, Option, List, [], ◌∷◌, ◌++◌}
use mail_mcp.Gmail.Parse.{
  PartInfo, RawPart, RawParts, part, nil, cons, Walk, visit, walk_parts, walk_all,
}

unfoldable mutual
  pub flatten : RawPart → List PartInfo
  flatten (part p subs) = p ∷ flatten_all subs

  pub flatten_all : RawParts → List PartInfo
  flatten_all nil = []
  flatten_all (cons p ps) = flatten p ++ flatten_all ps

module _ (decode64 : String → Option String) where
  abbrev pub visit_all : List PartInfo → Walk → Walk
  visit_all [] w = w
  visit_all (p ∷ ps) w = visit_all ps (visit decode64 p w)

  visit_all-append :
      (ps qs : List PartInfo) (w : Walk) → visit_all (ps ++ qs) w ≡ visit_all qs (visit_all ps w)
  visit_all-append [] qs w = refl
  visit_all-append (p ∷ ps) qs w = visit_all-append ps qs (visit decode64 p w)

  mutual
    unfolding walk_parts flatten

    pub walk_parts-visit_all :
        (p : RawPart) (w : Walk) → walk_parts decode64 p w ≡ visit_all (flatten p) w
    walk_parts-visit_all (part p subs) w = walk_all-visit_all subs (visit decode64 p w)

    walk_all-visit_all :
        (ps : RawParts) (w : Walk) → walk_all decode64 ps w ≡ visit_all (flatten_all ps) w
    walk_all-visit_all nil w = refl
    walk_all-visit_all (cons p ps) w =
        ap (walk_all decode64 ps) (walk_parts-visit_all p w)
        ∙ (walk_all-visit_all ps (visit_all (flatten p) w)
            ∙ sym (visit_all-append (flatten p) (flatten_all ps) w))
