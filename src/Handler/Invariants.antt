-- ===== src/Handler/Invariants.antt =====
-- What every method of `handle` keeps.
use mail_mcp.Base.{
  ◌≡◌, refl, ◌≢◌, inl, inr, Bool, true, false, if◌then◌else◌, ◌==◌, String, arith, nat_key,
  Bool-cases, ==_iff,
}
use mail_mcp.Base.State.{M}
use mail_mcp.Base.Ids.{AccountId, Ulid}
use mail_mcp.Json.{Json}
use mail_mcp.Accounts.{Codec}
use mail_mcp.Approvals.{Oneshot}
use mail_mcp.Oauth.{Chrono, OAuthTokens}
use mail_mcp.Secrets.{Keyring}
use mail_mcp.Mail.Provider.{MailProvider}
use mail_mcp.Ipc.Messages.{McpEndpointInfo, Writers}
use mail_mcp.Handler.State.{Daemon}
use mail_mcp.Handler.Signup.{
  add_oauth, complete_oauth, cancel_oauth, remove_account, take_pending, keep_refresh_token,
  register,
}
use mail_mcp.Handler.Methods.{
  Call, status, accounts_list, permissions_get, permissions_set, approvals_list, approvals_decide,
  set_onboarding_complete, pause, handle,
}

module _ (J : Json) (C : Codec) (U : Ulid) (O : Oneshot) (K : Keyring) (T : Chrono) (S : Type 0)
    (W : Writers J C) (empty_config : C.Value)
    (gmail : AccountId → OAuthTokens T → String → MailProvider S) (version : String)
    (mcp_endpoint : McpEndpointInfo) where
  abbrev pub D : Type 0
  D = Daemon J.Value C O K T S

  abbrev pub run_method : Call T → String → J.Value → M D J.Value
  run_method call method params =
      handle J C U O K T S W empty_config gmail version mcp_endpoint call method params

  -- Running `m` from `d` keeps `P`.
  pub record Keeps (P : D → Type 0) (d : D) (m : M D J.Value) : Type 0 where
    pub holds : P (m d).1

  if-Keeps :
      {P : D → Type 0} {d : D} (b : Bool) {x y : M D J.Value}
      → Keeps P d x
      → (b ≡ false → Keeps P d y)
      → Keeps P d (if b then x else y)
  if-Keeps true hx hy = hx
  if-Keeps false hx hy = hy refl

  -- A property that every method keeps is kept by `handle`.
  pub handle-Keeps :
      (P : D → Type 0) (call : Call T) (method : String) (params : J.Value) (d : D)
      → P d
      → P (status J C U O K T S version call.uptime_secs d).1
      → P (accounts_list J C U O K T S d).1
      → P (add_oauth J C U O K T S call.challenge_id call.begun call.task params d).1
      → P (complete_oauth J C U O K T S W empty_config gmail call.new_id call.now params d).1
      → P (cancel_oauth J C U O K T S params d).1
      → P (remove_account J C U O K T S params d).1
      → P (permissions_get J C U O K T S params d).1
      → P (permissions_set J C U O K T S params d).1
      → P (approvals_decide J C U O K T S params d).1
      → P (set_onboarding_complete J C U O K T S params d).1
      → (method ≡ "mcp.pause" → P (pause J C U O K T S params d).1)
      → Keeps P d (run_method call method params)
  unfolding handle approvals_list
  handle-Keeps P call method params d same p1 p2 p3 p4 p5 p6 p7 p8 p9 p10 p11 =
      if-Keeps (method == "status") (record { holds = p1 })
        λ _.
          if-Keeps (method == "accounts.list") (record { holds = p2 })
            λ _.
              if-Keeps (method == "accounts.add_oauth") (record { holds = p3 })
                λ _.
                  if-Keeps (method == "accounts.complete_oauth") (record { holds = p4 })
                    λ _.
                      if-Keeps (method == "accounts.cancel_oauth") (record { holds = p5 })
                        λ _.
                          if-Keeps (method == "accounts.remove") (record { holds = p6 })
                            λ _.
                              if-Keeps (method == "permissions.get") (record { holds = p7 })
                                λ _.
                                  if-Keeps (method == "permissions.set") (record { holds = p8 })
                                    λ _.
                                      if-Keeps (method == "approvals.list")
                                        (record { holds = same })
                                        λ _.
                                          if-Keeps (method == "approvals.decide")
                                            (record { holds = p9 })
                                            λ _.
                                              if-Keeps (method == "settings.set_autostart")
                                                (record { holds = same })
                                                λ _.
                                                  if-Keeps
                                                    (method == "settings.set_onboarding_complete")
                                                    (record { holds = p10 })
                                                    λ _.
                                                      if-Keeps (method == "mcp.endpoint")
                                                        (record { holds = same })
                                                        λ _.
                                                          elim (Bool-cases
                                                            (method == "mcp.pause")) [
                                                              | inl e ↦ rw e (record {
                                                              holds =
                                                              p11 ((==_iff method "mcp.pause").0 e);
                                                              })
                                                              | inr e ↦
                                                                rw e (record { holds = same })
                                                            ]

  -- Only `mcp.pause` changes the pause flag.
  pub handle-mcp_paused :
      (call : Call T) (method : String) (params : J.Value) (d : D)
      → method ≢ "mcp.pause"
      → (run_method call method params d).1.mcp_paused ≡ d.mcp_paused
  unfolding status accounts_list add_oauth complete_oauth cancel_oauth remove_account
      permissions_get permissions_set approvals_decide set_onboarding_complete take_pending register
      keep_refresh_token
  handle-mcp_paused call method params d ne =
      (handle-Keeps (λ d'. d'.mcp_paused ≡ d.mcp_paused) call method params d refl (ground arith)
        (ground arith) (ground arith) (ground arith) (ground arith) (ground arith) (ground arith)
        (ground arith) (ground arith) (ground arith) (λ e. elim (ne e) [ ])).holds
