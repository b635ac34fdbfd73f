-- ===== src/Mail/Client.antt =====
-- What a provider uses of `AuthClient`: requests over the network, each up to the check of the status.
use mail_mcp.Base.{String, Result}
use mail_mcp.Base.State.{M, ◌>>=◌, lift}

-- `V` is what a body is made of, `S` the remote side. `json` decodes the body of a response.
pub record RestClient (V S : Type 0) : Type 1 where
  pub Response : Type 0
  pub get : String → M S Response
  pub post_json : String → V → M S Response
  pub put_json : String → V → M S Response
  pub patch_json : String → V → M S Response
  pub delete : String → M S Response
  pub json : Response → Result V

module _ {V S : Type 0} (client : RestClient V S) where
  -- `client.get(&url).await?.error_for_status()?.json().await?`, the value being read by `read`.
  abbrev pub fetch : {A : Type 0} → (V → Result A) → String → M S A
  fetch read url = do resp ← client.get url; v ← lift (client.json resp); lift (read v)
