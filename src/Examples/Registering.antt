-- ===== src/Examples/Registering.antt =====
-- An account that is added to the database, and one that is removed from it.
use mail_mcp.Base.{
  ℕ, ◌≡◌, refl, String, some, List, [], ◌∷◌, Result, ok, err, json as json_error, string_key,
}
use mail_mcp.Permissions.Storage.{select, has_account}
use mail_mcp.Accounts.{
  microsoft365, as_str, from_str, Codec, NewAccount, into_account, insert_account, create, get,
  delete, delete_rows,
}
use mail_mcp.Accounts.Lifecycle.{created, create-get}
use mail_mcp.Examples.Instances.{ulid}
use mail_mcp.Examples.Policies.{database}

unfoldable pub registering : Unit {0}
unfolding select has_account as_str from_str into_account insert_account create get delete
    delete_rows
registering = tt

-- At most one scope, behind a stroke.
abbrev one_scope : List String → Result String
one_scope [] = ok ""
one_scope (s ∷ []) = ok (String.◌∷◌ "i" s)
one_scope (_ ∷ _ ∷ _) = err (json_error "too many scopes")

abbrev scope_of : String → Result (List String)
scope_of String.[] = ok []
scope_of (String.◌∷◌ _ s) = ok (s ∷ [])

pub scope_of-one_scope : (v : List String) (t : String) → one_scope v ≡ ok t → scope_of t ≡ ok v
scope_of-one_scope [] String.[] h = refl
scope_of-one_scope [] (String.◌∷◌ c t) h = cc
scope_of-one_scope (s ∷ []) t h = cc
scope_of-one_scope (_ ∷ _ ∷ _) t h = cc

abbrev pub codec : Codec
codec = record {
  Value = String;
  Instant = ℕ;
  config_text = λ v. ok v;
  config_of = λ t. ok t;
  scopes_text = one_scope;
  scopes_of = scope_of;
  instant = λ t. some t;
  config_of-config_text = λ v t h. cc;
  scopes_of-scopes_text = scope_of-one_scope;
}

abbrev work : NewAccount codec
work = record {
  label = "work";
  provider = microsoft365;
  email = "w@example.com";
  config = "{}";
  scopes = "Mail.Send" ∷ [];
}

create-get_example :
    get codec ulid 3 (create codec ulid 3 7 work database).1
    ≡ (ok (some (created codec ulid 3 7 work)), (create codec ulid 3 7 work database).1)
unfolding registering
create-get_example =
    create-get codec ulid 3 7 work database (create codec ulid 3 7 work database).1 7 refl refl
