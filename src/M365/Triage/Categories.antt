-- ===== src/M365/Triage/Categories.antt =====
-- What `label_impl` does to the categories of the messages.
use mail_mcp.Base.{
  ◌≡◌, refl, sym, ap, ◌∙◌, Bool, true, false, not, String, List, [], ◌∷◌, ◌++◌, any, filter,
  if◌then◌else◌, ◌==◌, ==_iff, Bool-cases, inl, inr, ok, arith,
}
use mail_mcp.Base.State.{lift, bind_outcome-eq-ok}
use mail_mcp.Base.Ids.{MessageId, LabelId}
use mail_mcp.Json.{Json}
use mail_mcp.Mail.Client.{RestClient}
use mail_mcp.M365.Triage.{
  message_url, for_each, toggled, patch_one, categories_in, categories_value, label_one, label,
}

-- Toggling twice is toggling once.
filter_twice :
    (t : LabelId) (cs : List String)
    → filter (λ c. not (c == t)) (filter (λ c. not (c == t)) cs) ≡ filter (λ c. not (c == t)) cs
filter_twice t [] = refl
filter_twice t (c ∷ cs) = ground (arith, filter_twice t cs)

filter-append_target :
    (t : LabelId) (cs : List String)
    → filter (λ c. not (c == t)) (cs ++ t ∷ []) ≡ filter (λ c. not (c == t)) cs
filter-append_target t [] = ground (arith, ==_iff t t)
filter-append_target t (c ∷ cs) = ground (arith, filter-append_target t cs)

toggled_twice :
    (t : LabelId) (on : Bool) (cs : List String) → toggled t on (toggled t on cs) ≡ toggled t on cs
unfolding toggled
toggled_twice t true cs =
    ap (λ x. x ++ t ∷ [])
      (filter-append_target t (filter (λ c. not (c == t)) cs) ∙ filter_twice t cs)
toggled_twice t false cs = filter_twice t cs

-- The categories but for the label.
abbrev pub others : LabelId → List String → List String
others t = filter (λ c. not (c == t))

append_nothing : (cs : List String) → cs ++ [] ≡ cs
append_nothing [] = refl
append_nothing (c ∷ cs) = ap (λ ds. c ∷ ds) (append_nothing cs)

toggled-eq :
    (t : LabelId) (on : Bool) (cs : List String)
    → toggled t on cs ≡ others t cs ++ (if on then t ∷ [] else [])
unfolding toggled
toggled-eq t true cs = refl
toggled-eq t false cs = sym (append_nothing (others t cs))

others-toggled :
    (t : LabelId) (on : Bool) (cs : List String) → others t (toggled t on cs) ≡ others t cs
unfolding toggled
others-toggled t true cs = filter-append_target t (others t cs) ∙ filter_twice t cs
others-toggled t false cs = filter_twice t cs

module _ (J : Json) {S : Type 0} (client : RestClient J.Value S) (base : String)
    (categories : MessageId → S → List String) where
  -- What Graph documents of the two requests: the first answers with the categories of the message
  -- and changes none, and the second replaces those of its message and of no other.
  pub record IsGraph : Type 0 where
    pub reads :
        (id : MessageId) (s s' : S) (r : client.Response) (v : J.Value)
        → client.get (message_url base id "?$select=categories") s ≡ (ok r, s')
        → client.json r ≡ ok v
        → (categories_in J v ≡ categories id s)
          × ((m : MessageId) → categories m s' ≡ categories m s)
    pub replaces :
        (id : MessageId) (next : List String) (s s' : S) (r : client.Response)
        → client.patch_json (message_url base id "") (categories_value J next) s ≡ (ok r, s')
        → (m : MessageId) → categories m s' ≡ (if m == id then next else categories m s)

  set_here :
      (t : LabelId) (on : Bool) (id m : MessageId) (v : J.Value) (s s2 : S)
      → categories_in J v ≡ categories id s
      → categories m s2 ≡ categories m s
      → (if m == id then toggled t on (categories_in J v) else categories m s2)
        ≡ (if m == id then toggled t on (categories m s) else categories m s)
  set_here t on id m v s s2 found stays = elim (Bool-cases (m == id)) [
    | inr other ↦ rw other stays
    | inl own ↦
        rw own (ap (toggled t on) (found ∙ ap (λ x. categories x s) (sym ((==_iff m id).0 own))))
  ]

  label_one-categories :
      (t : LabelId) (on : Bool) (id : MessageId) (s s' : S)
      → IsGraph
      → label_one J client base t on id s ≡ (ok tt, s')
      → (m : MessageId)
      → categories m s' ≡ (if m == id then toggled t on (categories m s) else categories m s)
  unfolding label_one patch_one
  label_one-categories t on id s s' graph h m =
      let (r, s1, got, h1) =
        bind_outcome-eq-ok (client.get (message_url base id "?$select=categories") s) _ h in
      let (v, s2, decoded, h2) = bind_outcome-eq-ok (lift (client.json r) s1) _ h1 in
      let (r', s3, patched, done) =
        bind_outcome-eq-ok
          (client.patch_json (message_url base id "")
            (categories_value J (toggled t on (categories_in J v))) s2)
          _ h2 in
      let (found, unread) = graph.reads id s s1 r v got (ap (λ x. x.0) decoded) in
      let stays = ap (categories m) (sym (ap (λ x. x.1) decoded)) ∙ unread m in
      ap (categories m) (sym (ap (λ x. x.1) done))
      ∙ (graph.replaces id (toggled t on (categories_in J v)) s2 s3 r' patched m
          ∙ set_here t on id m v s s2 found stays)

  label-toggled :
      (ids : List MessageId) (t : LabelId) (on : Bool) (s s' : S)
      → IsGraph
      → label J client base ids t on s ≡ (ok tt, s')
      → (m : MessageId)
      → categories m s'
        ≡ (if any (λ id. m == id) ids then toggled t on (categories m s) else categories m s)
  unfolding label for_each
  label-toggled [] t on s s' graph h m = ap (categories m) (sym (ap (λ x. x.1) h))
  label-toggled (id ∷ ids) t on s s' graph h m =
      let (_, s1, first, rest) = bind_outcome-eq-ok (label_one J client base t on id s) _ h in
      let here = label_one-categories t on id s s1 graph first m in
      let there = label-toggled ids t on s1 s' graph rest m in
      ground (arith, here, there, toggled_twice t on (categories m s))

  -- A successful `label` loses no other category of any message: what a message has besides the
  -- label is the same list as before, although each request replaces all of them. Each of the
  -- messages ends with these and then, if it is to be on, the label, once, also when the message is
  -- named twice; every other message ends with what it had. The server must do what Graph documents
  -- of the requests.
  pub label-categories :
      (ids : List MessageId) (t : LabelId) (on : Bool) (s s' : S)
      → IsGraph
      → label J client base ids t on s ≡ (ok tt, s')
      → (m : MessageId)
      → (others t (categories m s') ≡ others t (categories m s))
        × (categories m s' ≡ (
            if any (λ id. m == id) ids
            then others t (categories m s) ++ (if on then t ∷ [] else [])
            else categories m s))
  label-categories ids t on s s' graph h m =
      let e = label-toggled ids t on s s' graph h m in
      elim (Bool-cases (any (λ id. m == id) ids)) [
        | inl named ↦
            let own = e ∙ ground (arith, named) in
            (
              ap (others t) own ∙ others-toggled t on (categories m s),
              rw named (own ∙ toggled-eq t on (categories m s)),
            )
        | inr unnamed ↦
            let same = e ∙ ground (arith, unnamed) in (ap (others t) same, rw unnamed same)
      ]
