-- ===== src/Server/Registration.antt =====
-- The authorisation that a registration leaves on the device.
use nimble_sdk.Prelude.{
  ◌-◌, ◌<◌, ◌≡◌, ◌∙◌, refl, ap, true, false, inl, inr, Bool-cases, some, Text, List, [], ◌∷◌,
  compare_text, codes, ◌==◌, arith,
}
use nimble_sdk.Prelude.Map.{find, find-insert_self}
use nimble_sdk.Prelude.Int.{eq_ℤ}
use nimble_sdk.Status.{success, json_parse_err}
use nimble_sdk.Json.{Json, ReadsBack, get_json, text_at}
use nimble_sdk.Server.{
  Server, Network, send_request, device_register, register_response, register_request, init,
  dump_auth, parse_auth, auth_file,
}

module _ (json : Json) (network : Network) where
  parse_auth-dump_auth :
      ReadsBack json → (header : Text) → parse_auth json (dump_auth json header) ≡ some header
  unfolding parse_auth dump_auth find compare_text
  parse_auth-dump_auth reads header =
      let fields : List (Text × json.J) = (codes "apiHeader", json.of_text header) ∷ [] in
      let found : json.at (codes "apiHeader") (json.of_object fields) ≡ some (json.of_text header) =
        reads.at-of_object (codes "apiHeader") fields in
      rw
        (
          parse_auth,
          dump_auth,
          get_json,
          reads.parse-dump fields,
          text_at,
          found,
          reads.as_text-of_text header,
        )
        refl

  device_register-file :
      (s : Server)
      → (device_register json network s).1 ≡ true
      → find auth_file (device_register json network s).0.files
        ≡ some (dump_auth json (device_register json network s).0.header)
  unfolding device_register send_request
  device_register-file s ok =
      let r = network s.sent (register_request json s) in
      let answer = get_json json (register_response json) (json_parse_err, []) r.body in
      elim (Bool-cases (eq_ℤ answer.0 success)) [
        | inl b ↦ rw (device_register, b) (find-insert_self auth_file _ s.files)
        | inr b ↦
            let no : (device_register json network s).1 ≡ false = rw (device_register, b) refl in cc
      ]

  -- After a registration that succeeded, the device keeps the header: a new run of the SDK over the
  -- files that it left takes the same header from there and sends no request.
  pub init-device_register :
      (s fresh : Server)
      → ReadsBack json
      → (device_register json network s).1 ≡ true
      → fresh.files ≡ (device_register json network s).0.files
      → fresh.register_done ≡ false
      → 0 < fresh.register_retries
      → ((init json network fresh).1 ≡ true)
        × ((init json network fresh).0.header ≡ (device_register json network s).0.header)
        × ((init json network fresh).0.sent ≡ fresh.sent)
  unfolding init device_register send_request
  init-device_register s fresh reads ok same d n =
      let header = (device_register json network s).0.header in
      let found : find auth_file fresh.files ≡ some (dump_auth json header) =
        ap (find auth_file) same ∙ device_register-file s ok in
      let parsed = parse_auth-dump_auth reads header in
      let left : (fresh.register_retries == 0) ≡ false = ground (arith, n) in
      let after : Server = record fresh {
        register_retries = fresh.register_retries - 1;
        host = fresh.config.host;
        header = header;
        register_done = true;
      } in
      let done : init json network fresh ≡ (after, true) =
        simp (init, d, left, found, parsed) refl in
      (ap (λ r. r.1) done, ap (λ r. r.0.header) done, ap (λ r. r.0.sent) done)
