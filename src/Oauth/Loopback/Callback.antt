-- ===== src/Oauth/Loopback/Callback.antt =====
-- Which redirect the listener believes, and which connections it passes over.
use mail_mcp.Base.{
  ◌≡◌, refl, sym, ap, ◌∙◌, inl, inr, String, Option, none, some, List, [], ◌∷◌, ◌++◌, Result, ok,
  err, arith, IsIn, All, unwrap_or, Option-cases, Result-cases, Error,
}
use mail_mcp.Base.Texts.{split}
use mail_mcp.Oauth.Loopback.{
  CapturedCallback, Read, Accept, failed, connected, no_params, query, params, handle_one,
  await_callback,
}
use mail_mcp.Oauth.Loopback.Query.{field, HasPair, set_params-field, set_params-error}
use mail_mcp.Oauth.Loopback.Verdict.{verdict-eq-captured, verdict-passes, verdict-refuses}

module _ (percent_decode : String → String) where
  -- The query of a request has the parameter `k` with the value `v`, percent-decoded.
  abbrev pub HasParam : String → String → String → Type 0
  HasParam k v req = HasPair percent_decode k v (split b'&' (query req))

module _ (percent_decode : String → String) (expected : String) where
  -- A connection that was read, reports no error and does not carry the expected state: a port
  -- scan, a preconnect, a redirect of another sign-in.
  pub data IsSpurious : Accept → Type 0 where
    stray :
        (bytes : Option String)
        → ((v : String) → ¬ HasParam percent_decode "error" v (unwrap_or bytes ""))
        → ¬ HasParam percent_decode "state" expected (unwrap_or bytes "")
        → IsSpurious (connected (ok bytes))

  params-field :
      (key req w : String)
      → field key (params percent_decode req) ≡ some w
      → field key no_params ≡ none
      → HasParam percent_decode key w req
  unfolding params
  params-field key req w h empty = elim (set_params-field percent_decode key _ no_params w h) [
    | inl start ↦ ground (arith, start)
    | inr found ↦ found
  ]

  params-no_error :
      (req v : String)
      → (params percent_decode req).error ≡ none
      → ¬ HasParam percent_decode "error" v req
  unfolding params field
  params-no_error req v e found = set_params-error percent_decode v _ no_params found e

  handle_one-captures :
      (bytes : Option String) (c : CapturedCallback)
      → handle_one percent_decode expected (ok bytes) ≡ ok (some c)
      → HasParam percent_decode "code" c.code (unwrap_or bytes "")
        × HasParam percent_decode "state" expected (unwrap_or bytes "")
        × ((v : String) → ¬ HasParam percent_decode "error" v (unwrap_or bytes ""))
  unfolding handle_one field
  handle_one-captures bytes c h =
      let req = unwrap_or bytes "" in
      let (no_error, state, code) = verdict-eq-captured expected (params percent_decode req) c h in
      (
        params-field "code" req c.code code refl,
        params-field "state" req expected state refl,
        λ v. params-no_error req v no_error,
      )

  handle_one-passes :
      (bytes : Option String)
      → ((v : String) → ¬ HasParam percent_decode "error" v (unwrap_or bytes ""))
      → ¬ HasParam percent_decode "state" expected (unwrap_or bytes "")
      → handle_one percent_decode expected (ok bytes) ≡ ok none
  unfolding handle_one field
  handle_one-passes bytes clean other =
      let p = params percent_decode (unwrap_or bytes "") in
      verdict-passes expected p
        (elim (Option-cases p.error) [
          | inl e ↦ e
          | inr (v, e) ↦ absurd (clean v (params-field "error" _ v e refl))
        ])
        (λ e. other (params-field "state" _ expected e refl))

  await-step :
      (read : Read) (accepts : List Accept) (r : Result (Option CapturedCallback))
      → handle_one percent_decode expected read ≡ r
      → await_callback percent_decode expected (connected read ∷ accepts) ≡ elim r [
        | err e ↦ err e
        | ok (some captured) ↦ ok captured
        | ok none ↦ await_callback percent_decode expected accepts
      ]
  unfolding await_callback
  await-step read accepts r e = rw (e, await_callback)

  -- Connections that carry no error and not the expected state do not end the wait and do not
  -- change its result, however many there are: the listener goes on as if they had not come.
  pub await_callback-IsSpurious :
      (before after : List Accept)
      → All IsSpurious before
      → await_callback percent_decode expected (before ++ after)
        ≡ await_callback percent_decode expected after
  unfolding await_callback
  await_callback-IsSpurious [] after h = refl
  await_callback-IsSpurious (_ ∷ before) after (stray bytes clean other, h) =
      await-step _ (before ++ after) (ok none) (handle_one-passes bytes clean other)
      ∙ await_callback-IsSpurious before after h

  -- A connection whose query has the expected state and the code `c`, and reports no error.
  abbrev pub IsCallback : String → Accept → Type 0
  IsCallback c a =
      (bytes : Option String) × (a ≡ connected (ok bytes))
      × HasParam percent_decode "code" c (unwrap_or bytes "")
      × HasParam percent_decode "state" expected (unwrap_or bytes "")
      × ((v : String) → ¬ HasParam percent_decode "error" v (unwrap_or bytes ""))

  -- The code that the sign-in goes on with was in the query of a connection that came before the
  -- deadline, beside the state that this sign-in expects and without an error.
  pub await_callback-IsCallback :
      (accepts : List Accept) (c : CapturedCallback)
      → await_callback percent_decode expected accepts ≡ ok c
      → (a : Accept) × IsIn a accepts × IsCallback c.code a
  unfolding await_callback handle_one
  await_callback-IsCallback [] c h = cc
  await_callback-IsCallback (failed e ∷ accepts) c h = cc
  await_callback-IsCallback (connected (err e) ∷ accepts) c h = cc
  await_callback-IsCallback (connected (ok bytes) ∷ accepts) c h =
      elim (Result-cases (handle_one percent_decode expected (ok bytes))) [
        | inr (e, failure) ↦ cc (await-step (ok bytes) accepts (err e) failure)
        | inl (answer, answered) ↦ elim (Option-cases answer) [
          | inl waits ↦
              let (a, here, callback) =
                await_callback-IsCallback accepts c
                  (sym (await-step (ok bytes) accepts (ok none) (answered ∙ ap ok waits)) ∙ h) in
              (a, inr here, callback)
          | inr (c', captured) ↦
              let same_code : c' ≡ c =
                cc (await-step (ok bytes) accepts (ok (some c')) (answered ∙ ap ok captured)) in
              let (code, state, clean) =
                handle_one-captures bytes c (answered ∙ ap ok (captured ∙ ap some same_code)) in
              (connected (ok bytes), inl refl, (bytes, refl, code, state, clean))
        ]
      ]

  -- A request that reports an error ends the sign-in with an error after any number of spurious
  -- connections, whatever state it carries.
  pub await_callback-error :
      (before after : List Accept) (req v : String)
      → All IsSpurious before
      → HasParam percent_decode "error" v req
      → (e : Error) × (await_callback percent_decode expected
            (before ++ connected (ok (some req)) ∷ after)
          ≡ err e)
  unfolding handle_one params field
  await_callback-error before after req v h found =
      let (e, refused) =
        verdict-refuses expected (params percent_decode req)
          (set_params-error percent_decode v _ no_params found) in
      (
        e,
        await_callback-IsSpurious before (connected (ok (some req)) ∷ after) h
            ∙ await-step (ok (some req)) after (err e) refused,
      )
