-- ===== src/CommandCenter/Cloud.antt =====
-- What the rounds of set_cloud_config cost, and what they set.
use nimble_sdk.Prelude.{
  List, [], ◌∷◌, ◌+◌, ◌*◌, ◌<◌, ◌≤◌, ◌≡◌, refl, true, false, inl, inr, Bool-cases, length, ◌==◌,
  arith,
}
use nimble_sdk.Prelude.Int.{ℤ, eq_ℤ}
use nimble_sdk.Status.{success}
use nimble_sdk.Json.{Json}
use nimble_sdk.Logger.{Moment}
use nimble_sdk.Server.{Network, Server}
use nimble_sdk.Server.Bounds.{get_with_retries-sent}
use nimble_sdk.Server.Cloud.{CloudConfigResponse, get_cloud_config, share_key}
use nimble_sdk.CommandCenter.{CommandCenter, set_cloud_config, cloud_rounds}

share_key-keys :
    (r : CloudConfigResponse)
    → eq_ℤ (share_key r).status success ≡ true
    → (share_key r).metrics_key ≡ (share_key r).log_key
unfolding share_key
share_key-keys r h = elim (Bool-cases (eq_ℤ r.status success)) [
  | inl b ↦ simp (share_key, b) refl
  | inr b ↦ absurd (grind (arith, b, h))
]

module _ (json : Json) (network : Network) where
  get_cloud_config-sent :
      (s : Server) → length (get_cloud_config json network 3 s).0.sent ≤ length s.sent + 7
  unfolding get_cloud_config
  get_cloud_config-sent s = omega (arith, (get_with_retries-sent json network 3 _ s).1)

  get_cloud_config-keys :
      (s : Server)
      → eq_ℤ (get_cloud_config json network 3 s).1.status success ≡ true
      → (get_cloud_config json network 3 s).1.metrics_key
        ≡ (get_cloud_config json network 3 s).1.log_key
  unfolding get_cloud_config
  get_cloud_config-keys s h = search (share_key-keys, h)

module _ (json : Json) (network : Network) {U : Type 0} where
  set_cloud_config-sent :
      (m : Moment) (ping : ℤ) (c : CommandCenter json U)
      → length (set_cloud_config json network m ping c).server.sent
          + 7 * (set_cloud_config json network m ping c).cloud_config_fetch_retries
        ≤ length c.server.sent + 7 * c.cloud_config_fetch_retries
  unfolding set_cloud_config
  set_cloud_config-sent m ping c =
      let sent = get_cloud_config-sent json network c.server in
      let r = (get_cloud_config json network 3 c.server).1 in
      elim (Bool-cases c.cloud_config_set) [
        | inl b ↦ simp (set_cloud_config, b) (omega arith)
        | inr b ↦ elim (Bool-cases (c.cloud_config_fetch_retries == 0)) [
          | inl z ↦ simp (set_cloud_config, b, z) (omega arith)
          | inr z ↦
              let some_left : 0 < c.cloud_config_fetch_retries = ground (arith, z) in
              elim (Bool-cases (eq_ℤ r.status success)) [
                | inl k ↦ simp (set_cloud_config, b, z, k) (omega (arith, sent, some_left))
                | inr k ↦ simp (set_cloud_config, b, z, k) (omega (arith, sent, some_left))
              ]
        ]
      ]

  -- However often set_cloud_config is called in a row, its calls send at most seven requests for each
  -- attempt of its counter: one, and three registrations with a request each.
  pub cloud_rounds-sent :
      (rounds : List (Moment × ℤ)) (c : CommandCenter json U)
      → length (cloud_rounds json network rounds c).server.sent
          + 7 * (cloud_rounds json network rounds c).cloud_config_fetch_retries
        ≤ length c.server.sent + 7 * c.cloud_config_fetch_retries
  unfolding cloud_rounds
  cloud_rounds-sent [] c = omega arith
  cloud_rounds-sent ((m, ping) ∷ rounds) c = omega (
    arith,
    set_cloud_config-sent m ping c,
    cloud_rounds-sent rounds (set_cloud_config json network m ping c),
  )

  -- The call that sets the configuration takes the key of the logs for the metrics too, and leaves
  -- the interval in which metrics are collected as it was, whatever the server answers.
  pub set_cloud_config_keys :
      (m : Moment) (ping : ℤ) (c : CommandCenter json U)
      → c.cloud_config_set ≡ false
      → (set_cloud_config json network m ping c).cloud_config_set ≡ true
      → ((set_cloud_config json network m ping c).cloud_config.metrics_key
          ≡ (set_cloud_config json network m ping c).cloud_config.log_key)
        × ((set_cloud_config json network m ping c).cloud_config.metrics_collection_interval
            ≡ c.cloud_config.metrics_collection_interval)
  unfolding set_cloud_config
  set_cloud_config_keys m ping c before after =
      let r = (get_cloud_config json network 3 c.server).1 in
      elim (Bool-cases (c.cloud_config_fetch_retries == 0)) [
        | inl z ↦ absurd (grind (arith, before, z, after))
        | inr z ↦ elim (Bool-cases (eq_ℤ r.status success)) [
          | inl k ↦
              simp (set_cloud_config, before, z, k)
                (get_cloud_config-keys json network c.server k, refl)
          | inr k ↦ absurd (grind (arith, before, z, k, after))
        ]
      ]
