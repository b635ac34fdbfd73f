-- ===== src/Examples/Starting.antt =====
-- A daemon that starts with one account, whose refresh token is in the keychain.
use mail_mcp.Base.{
  ℕ, false, ◌≡◌, ◌≢◌, ◌↔◌, refl, ap, String, Option, some, none, [], ◌∷◌, ok, parsed, string_key,
  nat_key,
}
use mail_mcp.Base.Dict.{lookup, insert}
use mail_mcp.Permissions.Storage.{select, has_account}
use mail_mcp.Accounts
use mail_mcp.Accounts.{
  Account, gmail as gmail_kind, as_str, from_str, into_account, into_accounts, by_time,
  insert_by_time,
}
use mail_mcp.Secrets
use mail_mcp.Approvals.{new}
use mail_mcp.Handler.Startup.{hydrate_providers, hydrate, stale_tokens}
use mail_mcp.Handler.Hydration.{HasToken, hydrate_providers_iff}
use mail_mcp.Handler.Backing.{IsBacked}
use mail_mcp.Handler.Runs.{serve}
use mail_mcp.Daemon.{new_handler, started}
use mail_mcp.Daemon.Start.{started-serve}
use mail_mcp.Examples.Instances.{channel, ulid, strokes}
use mail_mcp.Examples.Documents.{Doc, json}
use mail_mcp.Examples.Mailbox.{Log}
use mail_mcp.Examples.Policies.{database}
use mail_mcp.Examples.Registering.{codec}
use mail_mcp.Examples.Tokens.{seconds}
use mail_mcp.Examples.Keychain.{ring}
use mail_mcp.Examples.Daemons.{writers, endpoint, gmail, Daemons}
use mail_mcp.Examples.Serving.{some_calls}

starting : Unit {0}
unfolding lookup insert select has_account as_str from_str into_account into_accounts by_time
    insert_by_time Accounts.list Secrets.get Secrets.get_answer Secrets.as_str Secrets.service_name
    hydrate_providers hydrate stale_tokens new_handler started nat_key
starting = tt

abbrev secrets : String → String → Option String
secrets service user = some "RT"

abbrev home : Account codec
home = record {
  id = 1;
  label = "home";
  provider = gmail_kind;
  email = "a@example.com";
  config = "{}";
  scopes = "]" ∷ [];
  created_at = 0;
  last_validated = none;
}

hydrate_providers_iff_example :
    (lookup 1 (hydrate_providers codec ulid ring seconds gmail secrets (λ id. 100) database []).1
      ≢ none)
    ↔ HasToken codec ulid ring seconds gmail secrets (λ id. 100) 1 (home ∷ [])
unfolding starting
hydrate_providers_iff_example =
    hydrate_providers_iff codec ulid ring seconds gmail secrets (λ id. 100) database (home ∷ []) 1
      refl refl

abbrev daemon : Daemons
daemon = record {
  storage = database;
  secrets = secrets;
  providers = (hydrate_providers codec ulid ring seconds gmail secrets (λ id. 100) database []).1;
  approvals = new channel;
  mcp_paused = false;
  pending_oauth = [];
  sent = [];
}

started_works :
    started Doc codec ulid channel ring seconds gmail (λ id. 100) database secrets ≡ ok daemon
unfolding starting
started_works = refl

read_back : (id : ℕ) → ulid.from_str "i" ≡ parsed id → "i" ≡ strokes id
read_back id e = let own : 1 ≡ id = cc in ap strokes own

started-serve_example :
    IsBacked json codec ulid channel ring seconds Log writers "{}" gmail "0.1" endpoint (
      serve json codec ulid channel ring seconds Log writers "{}" gmail "0.1" endpoint some_calls
        daemon)
started-serve_example =
    started-serve json codec ulid channel ring seconds Log writers "{}" gmail "0.1" endpoint
      (λ id. 100) database secrets daemon some_calls (read_back, tt) started_works
