-- ===== src/Json.antt =====
-- The part of `serde_json::Value` that the program uses, as an interface: the crate is not part of
-- this repository. A module that builds or reads JSON takes it as a section's parameter.
use mail_mcp.Base.{ℕ, Bool, String, Option, List}

pub record Json : Type 1 where
  pub Value : Type 0
  pub null : Value
  pub bool : Bool → Value
  pub number : ℕ → Value
  pub string : String → Value
  pub array : List Value → Value
  -- `json!({...})`, the fields in the order in which the source writes them.
  pub object : List (String × Value) → Value
  -- The accessors answer `none` on a value of another kind.
  pub get : Value → String → Option Value
  pub as_str : Value → Option String
  pub as_bool : Value → Option Bool
  pub as_u64 : Value → Option ℕ
  pub as_array : Value → Option (List Value)
