-- ===== src/AuthClient/Requests.antt =====
-- The requests of `AuthClient`, and the client that the providers use.
--
-- The runs of `send` are counted, since each meets a clock and other tasks of its own.
use mail_mcp.Base.{ℕ, suc, String, Result}
use mail_mcp.Base.State.{M, ◌>>=◌, lift}
use mail_mcp.Oauth.{Chrono}
use mail_mcp.Mail.Client.{RestClient}
use mail_mcp.AuthClient.{AuthState, AuthClient, Turn, Http, send}

-- reqwest's constructors of requests, and what callers do with a response.
pub record Reqwest (V S : Type 0) : Type 1 where
  pub http : Http S
  pub get : String → http.Request
  pub post : String → V → http.Request
  pub put : String → V → http.Request
  pub patch : String → V → http.Request
  pub delete : String → http.Request
  pub error_for_status : http.Response → Result http.Response
  pub json : http.Response → Result V

-- What one `send` meets.
pub record Meeting (T : Chrono) (S : Type 0) : Type 0 where
  pub first : Turn T S
  pub second : Turn T S
  pub refused : T.Instant

pub record Counted (T : Chrono) (S : Type 0) : Type 0 where
  pub state : AuthState T S
  pub sends : ℕ

module _ {T : Chrono} {V S : Type 0} (R : Reqwest V S) (client : AuthClient S)
    (meets : ℕ → Meeting T S) where
  -- One run of `send`.
  unfoldable pub send_counted : R.http.Request → M (Counted T S) R.http.Response
  send_counted req c =
      let m = meets c.sends in
      let (r, st) = send R.http client m.first m.second m.refused req c.state in
      (r, record { state = st; sends = suc c.sends })

  unfoldable pub get : String → M (Counted T S) R.http.Response
  get url = send_counted (R.get url)

  unfoldable pub post_json : String → V → M (Counted T S) R.http.Response
  post_json url body = send_counted (R.post url body)

  unfoldable pub put_json : String → V → M (Counted T S) R.http.Response
  put_json url body = send_counted (R.put url body)

  unfoldable pub patch_json : String → V → M (Counted T S) R.http.Response
  patch_json url body = send_counted (R.patch url body)

  unfoldable pub delete : String → M (Counted T S) R.http.Response
  delete url = send_counted (R.delete url)

  -- `.await?.error_for_status()?`
  abbrev pub checked : M (Counted T S) R.http.Response → M (Counted T S) R.http.Response
  checked m = m >>= λ resp. lift (R.error_for_status resp)

  abbrev pub rest_client : RestClient V (Counted T S)
  rest_client = record {
    Response = R.http.Response;
    get = λ url. checked (get url);
    post_json = λ url body. checked (post_json url body);
    put_json = λ url body. checked (put_json url body);
    patch_json = λ url body. checked (patch_json url body);
    delete = λ url. checked (delete url);
    json = R.json;
  }
