-- ===== src/Examples/Tokens.antt =====
-- A token endpoint that rotates the refresh token, seconds as instants, and a client with expired
-- tokens.
use mail_mcp.Base.{
  ℕ, suc, ◌+◌, ◌-◌, ◌≡◌, refl, true, String, none, some, [], Result, ok, err, panic, arith, leb,
  ==_iff, if◌then◌else◌, nat_key,
}
use text.Mathlib.Text
use mail_mcp.Oauth.{Chrono, ℤ, pos, negsuc, OAuthTokens, Post, sub_i64, tokens_of, refresh}
use mail_mcp.AuthClient.{
  AuthState, AuthClient, Turn, Http, on_remote, store, notify, keep, renew, ensure_fresh,
  access_token, expire, retry, send,
}
use mail_mcp.AuthClient.Refresh.{saved}
use mail_mcp.AuthClient.Retry.{renewed, expired, send-retry}
use mail_mcp.AuthClient.Race.{finish_other, ensure_fresh-crossed}

tokens : Unit {0}
unfolding sub_i64 tokens_of refresh on_remote store notify keep renew ensure_fresh access_token
    expire retry send nat_key
tokens = tt

abbrev pub add : ℕ → ℤ → Result ℕ
add t (pos n) = ok (t + n)
add t (negsuc n) = if leb (suc n) t then ok (t - suc n) else err (panic "overflow")

abbrev pub seconds : Chrono
seconds = record {
  Instant = ℕ;
  leb = leb;
  add_seconds = add;
  leb-trans = λ a b c h k. ground arith;
  leb-second = λ a b h. ground arith;
}

-- The mailbox counts what it has been asked.
abbrev endpoint : Post ℕ
endpoint url form n = (
  ok record {
    access_token = "AT-2";
    refresh_token = some "RT-2";
    expires_in = pos 3600;
    scope = none;
  },
  suc n,
)

abbrev pub client : AuthClient ℕ
client = record {
  post = endpoint;
  cfg = record { auth_url = "a"; token_url = "t"; client_id = "c"; default_scopes = [] };
  on_rotation = true;
}

abbrev pub turn : ℕ → Turn seconds ℕ
turn now = record {
  now = now;
  answered = now;
  on_checked = λ st. st;
  on_answer = λ st. st;
  on_stored = λ st. st;
  on_done = λ st. st;
}

abbrev pub start : ℕ → AuthState seconds ℕ
start expires_at = record {
  tokens = record {
    access_token = "AT-1";
    refresh_token = some "RT-1";
    expires_at = expires_at;
    scope = none;
  };
  notified = [];
  remote = 0;
}

-- A server that does not know the first access token any more.
abbrev pub server : Http ℕ
server = record {
  Request = String;
  Response = ℕ;
  try_clone = λ req. some req;
  send = λ token req n. (ok (if Text.◌==◌ token "AT-1" then 401 else 200), suc n);
  status = λ resp. resp;
}

abbrev new_tokens : ℕ → OAuthTokens seconds
new_tokens now = record {
  access_token = "AT-2";
  refresh_token = some "RT-2";
  expires_at = now + 3570;
  scope = none;
}

send-retry_example :
    send server client (turn 100) (turn 110) 105 "r" (start 200)
    ≡ on_remote
        (server.send "AT-2" "r")
        (renewed client "RT-1" (new_tokens 110) (expired 104 2 (start 200)))
unfolding tokens
send-retry_example =
    send-retry server client (turn 100) (turn 110) 105
      (record {
        kept_checked = λ st. refl;
        kept_answer = λ st. refl;
        kept_stored = λ st. refl;
        kept_done = λ st. refl;
      })
      "r" "r" (start 200) (start 200) 401 1 2 104 "RT-1" (new_tokens 110) refl refl refl refl refl
      refl refl refl

abbrev their_tokens : OAuthTokens seconds
their_tokens = record {
  access_token = "AT-3";
  refresh_token = some "RT-3";
  expires_at = 3600;
  scope = none;
}

abbrev crossed_turn : Turn seconds ℕ
crossed_turn = record (turn 100) {
  on_stored = λ st. finish_other client (turn 100) "RT-1" their_tokens st;
}

ensure_fresh-crossed_example :
    ((ensure_fresh client crossed_turn (start 50)).1.tokens.refresh_token ≡ some "RT-3")
    × (saved "RT-1" (ensure_fresh client crossed_turn (start 50)).1.notified ≡ "RT-2")
unfolding tokens
ensure_fresh-crossed_example =
    ensure_fresh-crossed client crossed_turn "RT-1" (start 50) "RT-1" "RT-2" "RT-3" (new_tokens 100)
      their_tokens 1
      (record {
        kept_checked = λ st. refl;
        kept_answer = λ st. refl;
        crossed = λ st. refl;
        kept_done = λ st. refl;
      })
      refl refl refl refl (ground (arith, ==_iff "RT-2" "RT-1"))
      (ground (arith, ==_iff "RT-3" "RT-1")) refl refl
