-- ===== src/Server/Bounds.antt =====
-- How many requests ServerAPI sends.
use nimble_sdk.Prelude.{
  ℕ, zero, suc, ◌+◌, ◌*◌, ◌-◌, ◌<◌, ◌≤◌, ◌≡◌, ◌∙◌, refl, sym, subst, Bool, true, false, inl, inr,
  Bool-cases, Option, none, some, Text, [], length, ◌==◌, Option-cases, arith,
}
use nimble_sdk.Prelude.Map.{find}
use nimble_sdk.Prelude.Int.{eq_ℤ}
use nimble_sdk.Status.{success, auth_err, json_parse_err}
use nimble_sdk.Json.{Json, get_json}
use nimble_sdk.Server.{
  Server, Network, send_request, device_register, register_response, register_request, register_now,
  init, get_with_retries, get_request, parse_auth, auth_file,
}

module _ (json : Json) (network : Network) where
  device_register-sent :
      (s : Server) → length (device_register json network s).0.sent ≡ suc (length s.sent)
  unfolding device_register send_request
  device_register-sent s =
      let r = network s.sent (register_request json s) in
      let answer = get_json json (register_response json) (json_parse_err, []) r.body in
      elim (Bool-cases (eq_ℤ answer.0 success)) [
        | inl b ↦ rw (device_register, b) refl
        | inr b ↦ rw (device_register, b) refl
      ]

  -- A call with n retries for a refused header sends at least one request and at most 1 + 2 n: each
  -- retry is a registration and a request.
  pub get_with_retries-sent :
      (retries : ℕ) (url : Text) (s : Server)
      → (length s.sent < length (get_with_retries json network retries url s).0.sent)
        × (length (get_with_retries json network retries url s).0.sent
            ≤ length s.sent + 1 + 2 * retries)
  unfolding get_with_retries send_request
  get_with_retries-sent zero url s = (omega arith, omega arith)
  get_with_retries-sent (suc retries) url s =
      let (s', r) = send_request network s (get_request json network s url) in
      let again = device_register json network s' in
      let registered = device_register-sent s' in
      let rest = get_with_retries-sent retries url again.0 in
      elim (Bool-cases (eq_ℤ r.status_code auth_err)) [
        | inr b ↦ rw (get_with_retries, b) (omega arith, omega arith)
        | inl b ↦ elim (Bool-cases again.1) [
          | inr c ↦
              rw (get_with_retries, b, c) (omega (arith, registered), omega (arith, registered))
          | inl c ↦
              rw (get_with_retries, b, c)
                (omega (arith, registered, rest.0), omega (arith, registered, rest.1))
        ]
      ]

  device_register-keeps :
      (s : Server)
      → ((device_register json network s).0.register_retries ≡ s.register_retries)
        × ((device_register json network s).0.register_done ≡ s.register_done)
  unfolding device_register send_request
  device_register-keeps s =
      let r = network s.sent (register_request json s) in
      let answer = get_json json (register_response json) (json_parse_err, []) r.body in
      elim (Bool-cases (eq_ℤ answer.0 success)) [
        | inl b ↦ rw (device_register, b) (refl, refl)
        | inr b ↦ rw (device_register, b) (refl, refl)
      ]

  -- What one call of init may have done to the state.
  abbrev Registered : Server → Server × Bool → Type 0
  Registered s (s', done) =
      (length s'.sent + s'.register_retries ≤ length s.sent + s.register_retries)
      × (s'.register_done ≡ done)

  register_now-Registered :
      (s s' : Server)
      → s'.register_done ≡ false
      → length s'.sent ≡ length s.sent
      → suc s'.register_retries ≡ s.register_retries
      → Registered s (register_now json network s')
  unfolding register_now
  register_now-Registered s s' d l n =
      let k = device_register-keeps s' in
      let m = device_register-sent s' in
      elim (Bool-cases (device_register json network s').1) [
        | inl b ↦ rw (register_now, b) (omega (arith, m, k.0, l, n), refl)
        | inr b ↦ rw (register_now, b) (omega (arith, m, k.0, l, n), k.1 ∙ d)
      ]

  init_registers :
      (s s' : Server) (content : Option Text)
      → s'.register_done ≡ false
      → length s'.sent ≡ length s.sent
      → suc s'.register_retries ≡ s.register_retries
      → Registered s (elim content [
        | none ↦ register_now json network s'
        | some c ↦ elim (parse_auth json c) [
          | none ↦ register_now json network s'
          | some header ↦ (record s' { header = header; register_done = true }, true)
        ]
      ])
  init_registers s s' none d l n = register_now-Registered s s' d l n
  init_registers s s' (some c) d l n = elim (Option-cases (parse_auth json c)) [
    | inl e ↦ rw e (register_now-Registered s s' d l n)
    | inr (header, e) ↦ rw e (omega (arith, l, n), refl)
  ]

  init_result-Registered : (s : Server) → Registered s (init json network s)
  unfolding init
  init_result-Registered s =
      let s' = record s { register_retries = s.register_retries - 1; host = s.config.host } in
      elim (Bool-cases s.register_done) [
        | inl d ↦
            let r : init json network s ≡ (s, true) = simp (init, d) refl in
            subst (Registered s) (sym r) (omega arith, d)
        | inr d ↦ elim (Bool-cases (s.register_retries == 0)) [
          | inl z ↦
              let r : init json network s ≡ (s, false) = simp (init, d, z) refl in
              subst (Registered s) (sym r) (omega arith, d)
          | inr z ↦
              let one : suc (s.register_retries - 1) ≡ s.register_retries = ground (arith, z) in
              let r = init_registers s s' (find auth_file s'.files) d refl one in
              simp (init, d, z) r
        ]
      ]

  -- Every request that init sends is taken from its counter, so that it registers a device at most
  -- as often as the counter says, and its result says whether the device is registered.
  init-Registered :
      (s : Server)
      → (length (init json network s).0.sent + (init json network s).0.register_retries
          ≤ length s.sent + s.register_retries)
        × ((init json network s).0.register_done ≡ (init json network s).1)
  init-Registered s = init_result-Registered s
