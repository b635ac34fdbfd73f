-- ===== src/Examples/Labelling.antt =====
-- Mailboxes that keep the labels of a message under the address that a request names.
use Prim.Native.String.{◌++◌}
use text.Mathlib.TextLemmas.{append_cancel_left, append_cancel_right, append_assoc}
use mail_mcp.Base.{
  ◌≡◌, refl, sym, ap, ◌∙◌, Bool, true, false, ◌||◌, String, List, [], ◌∷◌, map, filter_map, any,
  if◌then◌else◌, ◌==◌, ==_iff, Bool-cases, inl, inr, Result, ok, arith,
}
use mail_mcp.Base.{◌++◌ as append}
use mail_mcp.Mail.Client.{RestClient}
use mail_mcp.Gmail.Triage
use mail_mcp.Gmail.Triage.{
  ModifyRequest, modify_url, modify_one, modify_all, move_request, other_folders,
}
use mail_mcp.Gmail.Triage.Edits.{edit, Edits, move_to-has}
use mail_mcp.M365.Triage.{
  message_url, for_each, patch_one, categories_in, categories_value, label_one, label,
}
use mail_mcp.M365.Triage.Categories.{IsGraph, others, label-categories}
use mail_mcp.Examples.Documents.{Doc, json, of_docs, to_docs}

pub modify_url-injective : (base m id : String) → modify_url base m ≡ modify_url base id → m ≡ id
unfolding modify_url
modify_url-injective base m id e = append_cancel_right m id "/modify" (
    append_cancel_left "/users/me/messages/" (m ++ "/modify") (id ++ "/modify")
      (append_cancel_left base _ _ e))

pub same_url :
    (f : String → String) (m id : String) → (f m ≡ f id → m ≡ id) → (f m == f id) ≡ (m == id)
same_url f m id injective = elim (Bool-cases (m == id)) [
  | inl own ↦ (==_iff (f m) (f id)).1 (ap f ((==_iff m id).0 own)) ∙ sym own
  | inr other ↦ ground (arith, ==_iff (f m) (f id), ==_iff m id, injective)
]

-- Gmail: every label of a message under the address that edits it.
abbrev pub LabelTable : Type 0
LabelTable = String → String → Bool

abbrev pub apply_edit : String → ModifyRequest → LabelTable → LabelTable
apply_edit url req s u l = if u == url then edit req l (s u l) else s u l

abbrev gmail_client : RestClient ModifyRequest LabelTable
gmail_client = record {
  Response = Unit {0};
  get = λ url s. (ok tt, s);
  post_json = λ url req s. (ok tt, apply_edit url req s);
  put_json = λ url req s. (ok tt, s);
  patch_json = λ url req s. (ok tt, s);
  delete = λ url s. (ok tt, s);
  json = λ r. ok (record { add = []; remove = [] });
}

abbrev pub has : String → String → LabelTable → Bool
has m l s = s (modify_url "b" m) l

gmail-Edits : Edits gmail_client (λ req. req) "b" has
gmail-Edits id req s s' r h m l =
    ap (has m l) (sym (ap (λ x. x.1) h))
    ∙ ap (λ b. if b then edit req l (has m l s) else has m l s)
        (same_url (modify_url "b") m id (modify_url-injective "b" m id))

abbrev pub in_inbox : LabelTable
in_inbox u l = l == "INBOX" || l == "mine"

move_to-has_example :
    has "1" "INBOX"
      (Triage.move_to gmail_client (λ req. req) "b" ("1" ∷ "2" ∷ []) "TRASH" in_inbox).1
    ≡ (if any (λ id. "1" == id) ("1" ∷ "2" ∷ [])
        then (if "TRASH" == "INBOX"
            then true
            else if "INBOX" == "INBOX" || ("INBOX" == "SPAM" || "INBOX" == "TRASH")
            then false
            else has "1" "INBOX" in_inbox)
        else has "1" "INBOX" in_inbox)
unfolding Triage.move_to modify_all modify_one
move_to-has_example =
    move_to-has gmail_client (λ req. req) "b" has ("1" ∷ "2" ∷ []) "TRASH" in_inbox
      (Triage.move_to gmail_client (λ req. req) "b" ("1" ∷ "2" ∷ []) "TRASH" in_inbox).1 gmail-Edits
      refl "1" "INBOX"

-- Graph: the categories of a message under the address that reads them.
abbrev Categories : Type 0
Categories = String → List String

abbrev selecting : String
selecting = "?$select=categories"

pub to_docs-of_docs :
    (cs : List String) → filter_map json.as_str (to_docs (of_docs (map json.string cs))) ≡ cs
to_docs-of_docs [] = refl
to_docs-of_docs (c ∷ cs) = ap (λ x. c ∷ x) (to_docs-of_docs cs)

abbrev graph_client : RestClient Doc Categories
graph_client = record {
  Response = List String;
  get = λ url s. (ok (s url), s);
  post_json = λ url v s. (ok [], s);
  put_json = λ url v s. (ok [], s);
  patch_json = λ url v s. (ok [], λ u. if u == url ++ selecting then categories_in json v else s u);
  delete = λ url s. (ok [], s);
  json = λ cs. ok (categories_value json cs);
}

abbrev categories : String → Categories → List String
categories m s = s (message_url "b" m selecting)

patched_url : (id : String) → message_url "b" id "" ++ selecting ≡ message_url "b" id selecting
unfolding message_url
patched_url id =
    append_assoc "b" ("/me/messages/" ++ (id ++ "")) selecting
    ∙ ap (λ x. "b" ++ x)
        (append_assoc "/me/messages/" (id ++ "") selecting
          ∙ ap (λ x. "/me/messages/" ++ x) (append_assoc id "" selecting))

message_url-injective :
    (m id : String) → message_url "b" m selecting ≡ message_url "b" id selecting → m ≡ id
unfolding message_url
message_url-injective m id e = append_cancel_right m id selecting (
    append_cancel_left "/me/messages/" (m ++ selecting) (id ++ selecting)
      (append_cancel_left "b" _ _ e))

texts_in-categories_value : (cs : List String) → categories_in json (categories_value json cs) ≡ cs
unfolding categories_in categories_value
texts_in-categories_value cs = to_docs-of_docs cs

result_eq : {A : Type 0} {a b : A} → Result.ok a ≡ Result.ok b → a ≡ b
result_eq e = cc

graph_client-IsGraph : IsGraph json graph_client "b" categories
graph_client-IsGraph = record {
  reads = λ id s s' r v got decoded. (
    ap (categories_in json) (sym (result_eq decoded))
        ∙ (texts_in-categories_value r ∙ sym (result_eq (ap (λ x. x.0) got))),
    λ m. ap (categories m) (sym (ap (λ x. x.1) got)),
  );
  replaces = λ id next s s' r h m.
      ap (categories m) (sym (ap (λ x. x.1) h))
      ∙ (ap
            (λ u.
              if message_url "b" m selecting == u
              then categories_in json (categories_value json next)
              else categories m s)
            (patched_url id)
          ∙ (ap
                (λ cs.
                  if message_url "b" m selecting == message_url "b" id selecting
                  then cs
                  else categories m s)
                (texts_in-categories_value next)
              ∙ ap (λ b. if b then next else categories m s)
                  (same_url (λ x. message_url "b" x selecting) m id (message_url-injective m id))));
}

abbrev colours : Categories
colours u = "red" ∷ "blue" ∷ []

label-categories_example :
    (others "red"
        (categories "2" (label json graph_client "b" ("1" ∷ "2" ∷ "1" ∷ []) "red" true colours).1)
      ≡ others "red" (categories "2" colours))
    × (categories "2" (label json graph_client "b" ("1" ∷ "2" ∷ "1" ∷ []) "red" true colours).1 ≡ (
        if any (λ id. "2" == id) ("1" ∷ "2" ∷ "1" ∷ [])
        then append (others "red" (categories "2" colours)) (if true then "red" ∷ [] else [])
        else categories "2" colours))
unfolding label for_each label_one patch_one
label-categories_example =
    label-categories json graph_client "b" categories ("1" ∷ "2" ∷ "1" ∷ []) "red" true colours
      (label json graph_client "b" ("1" ∷ "2" ∷ "1" ∷ []) "red" true colours).1 graph_client-IsGraph
      refl "2"
