-- ===== src/Examples/Documents.antt =====
-- A stand-in for JSON values.
use mail_mcp.Base.{ℕ, Bool, String, Option, none, some, List, [], ◌∷◌, if◌then◌else◌, ◌==◌}
use mail_mcp.Json.{Json}

mutual
  pub data Doc : Type 0 where
    null : Doc
    bool : Bool → Doc
    number : ℕ → Doc
    text : String → Doc
    array : Docs → Doc
    object : Fields → Doc

  pub data Docs : Type 0 where
    nil : Docs
    cons : Doc → Docs → Docs

  pub data Fields : Type 0 where
    end : Fields
    field : String → Doc → Fields → Fields

abbrev pub of_docs : List Doc → Docs
of_docs [] = nil
of_docs (d ∷ ds) = cons d (of_docs ds)

abbrev pub to_docs : Docs → List Doc
to_docs nil = []
to_docs (cons d ds) = d ∷ to_docs ds

abbrev of_fields : List (String × Doc) → Fields
of_fields [] = end
of_fields ((k, d) ∷ fs) = field k d (of_fields fs)

abbrev get_field : Fields → String → Option Doc
get_field end k = none
get_field (field j d fs) k = if j == k then some d else get_field fs k

abbrev get : Doc → String → Option Doc
get (object fs) k = get_field fs k
get _ k = none

abbrev as_str : Doc → Option String
as_str (text s) = some s
as_str _ = none

abbrev as_bool : Doc → Option Bool
as_bool (bool b) = some b
as_bool _ = none

abbrev as_u64 : Doc → Option ℕ
as_u64 (number n) = some n
as_u64 _ = none

abbrev as_array : Doc → Option (List Doc)
as_array (array ds) = some (to_docs ds)
as_array _ = none

abbrev pub json : Json
json = record {
  Value = Doc;
  null = null;
  bool = bool;
  number = number;
  string = text;
  array = λ ds. array (of_docs ds);
  object = λ fs. object (of_fields fs);
  get = get;
  as_str = as_str;
  as_bool = as_bool;
  as_u64 = as_u64;
  as_array = as_array;
}
