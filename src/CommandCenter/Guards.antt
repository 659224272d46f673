-- ===== src/CommandCenter/Guards.antt =====
-- What the calls keep of a command center: any predicate of whether its members are there, whether it
-- has been initialised, and its configuration, with a condition for initialize only.
use nimble_sdk.Prelude.{
  ℕ, Bool, true, false, not, inl, inr, Bool-cases, Option-cases, Option, ◌==◌, ◌-◌, ◌/◌, List, Text,
  IfSome, IfSome-bind, IfSome-if, IfSome-cases,
}
use nimble_sdk.Prelude.Map.{is_some}
use nimble_sdk.Prelude.Int.{ℤ, pos, eq_ℤ, leb_ℤ}
use nimble_sdk.Status.{success}
use nimble_sdk.Json.{Json}
use nimble_sdk.Config.{Config}
use nimble_sdk.Server.{Network}
use nimble_sdk.Logger.{Moment}
use nimble_sdk.Executor.Structs.{ElementTypes, TensorInfo, ModelInfo}
use nimble_sdk.CommandCenter.{CommandCenter, set_cloud_config}
use nimble_sdk.CommandCenter.Start.{initialize, new_parts, resources_of}
use nimble_sdk.CommandCenter.Calls.{exit_inference, internet_switched_on}
use nimble_sdk.CommandCenter.Round.{update_plans, update_features, update_resources, get_metrics}
use nimble_sdk.Server.Cloud.{get_cloud_config}

module _ (json : Json) (P : Bool → Bool → Config json → Type 0) {U : Type 0} where
  abbrev pub Holds : CommandCenter json U → Type 0
  Holds c = P (is_some c.parts) c.initialize_success c.config

  pub exit_inference-Holds :
      (m : Moment) (model_id infer_id : Text) (ok : Bool) (c : CommandCenter json U)
      → Holds c
      → IfSome Holds (exit_inference json m model_id infer_id ok c)
  unfolding exit_inference
  exit_inference-Holds m model_id infer_id ok c h =
      IfSome-if Holds (not c.initialize_success) _ _ h (IfSome-bind Holds c.parts _ (λ p. h))

  pub internet_switched_on-Holds :
      (c : CommandCenter json U) → Holds c → IfSome Holds (internet_switched_on json c)
  unfolding internet_switched_on
  internet_switched_on-Holds c h =
      IfSome-if Holds (not c.initialize_success) _ _ h (elim (Option-cases c.parts) [
        | inl nothing ↦ let closed = rw nothing at h in rw nothing closed
        | inr (p, there) ↦ let ready = rw there at h in rw there ready
      ])

  pub set_cloud_config-Holds :
      (network : Network) (m : Moment) (ping : ℤ) (c : CommandCenter json U)
      → Holds c
      → Holds (set_cloud_config json network m ping c)
  unfolding set_cloud_config
  set_cloud_config-Holds network m ping c h =
      let r = (get_cloud_config json network 3 c.server).1 in
      elim (Bool-cases c.cloud_config_set) [
        | inl b ↦ simp (set_cloud_config, b) h
        | inr b ↦ elim (Bool-cases (c.cloud_config_fetch_retries == 0)) [
          | inl z ↦ simp (set_cloud_config, b, z) h
          | inr z ↦ elim (Bool-cases (eq_ℤ r.status success)) [
            | inl k ↦ simp (set_cloud_config, b, z, k) h
            | inr k ↦ simp (set_cloud_config, b, z, k) h
          ]
        ]
      ]

  pub get_metrics-Holds :
      (m : Moment) (metrics : Option Text) (c : CommandCenter json U)
      → Holds c
      → Holds (get_metrics json m metrics c)
  unfolding get_metrics
  get_metrics-Holds m metrics c h =
      let elapsed = (m.now - c.last_metric_time) / 1000000 in
      elim (Bool-cases (leb_ℤ c.cloud_config.metrics_collection_interval (pos elapsed))) [
        | inr early ↦ simp (get_metrics, early) h
        | inl due ↦ elim (Option-cases metrics) [
          | inl nothing ↦ simp (get_metrics, due, nothing) h
          | inr (text, e) ↦ simp (get_metrics, due, e) h
        ]
      ]

  module _ (network : Network) (e : ElementTypes) (parse : Text → Option ModelInfo)
      (session : Text → Bool)
      (create_preprocessor : U → Text → TensorInfo → Option (U × Bool)) where
    pub initialize-Holds :
        (new_events : List json.J → Bool → Option U) (now : ℕ) (m : Moment) (has_directory : Bool)
        (config : Config json) (c : CommandCenter json U)
        → ((b : Bool) (k k' : Config json) → P b false k → P b false k' × P true true k')
        → Holds c
        → IfSome
            (λ r. Holds r.0)
            (initialize json network e parse session create_preprocessor new_events now m
              has_directory config c)
    unfolding initialize
    initialize-Holds new_events now m has_directory config c opens h =
        IfSome-if _ c.init_locked _ _ h (
          IfSome-cases _ c.initialize_success _ _ (λ on. h)
            (λ off.
              let closed : P (is_some c.parts) false c.config = rw off at h in
              let (stays, opened) = opens (is_some c.parts) c.config config closed in
              IfSome-if _ (not config.valid) _ _ (rw off stays) (
                IfSome-bind _
                  (new_parts json network e parse session create_preprocessor new_events now config
                    c.server)
                  _ (λ p. opened))))

    pub update_resources-Holds :
        (now : ℕ) (c : CommandCenter json U)
        → Holds c
        → IfSome Holds (update_resources json network e parse session create_preprocessor now c)
    unfolding update_resources
    update_resources-Holds now c h = elim (Option-cases c.parts) [
      | inl nothing ↦ simp (update_resources, nothing) tt
      | inr (p, there) ↦
          let ready : P true c.initialize_success c.config = rw there at h in
          simp (update_resources, there)
            (IfSome-bind Holds
              (update_plans json network e parse session create_preprocessor c.config.model_ids
                (resources_of c.server p))
              _
              (λ r.
                IfSome-bind Holds
                  (update_features json network e parse session create_preprocessor now
                    c.config.feature_stores r)
                  _ (λ r'. ready)))
    ]
