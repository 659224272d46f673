-- ===== src/Nimble/Again.antt =====
-- A call of initialize_nimblenet after one that has succeeded.
use nimble_sdk.Prelude.{ℕ, ◌≡◌, ap, refl, Bool, true, false, Option, some, List, [], ◌∷◌, Text}
use nimble_sdk.Prelude.Int.{ℤ}
use nimble_sdk.Json.{Json}
use nimble_sdk.Config.{Config, load_user_config}
use nimble_sdk.Server.{Network}
use nimble_sdk.Logger.{
  Logger, LoggingConfig, Moment, init_logger, update_device_details, default_secret_key,
}
use nimble_sdk.Executor.Structs.{ElementTypes, TensorInfo, ModelInfo}
use nimble_sdk.CommandCenter.{CommandCenter, set_cloud_config, cloud_rounds}
use nimble_sdk.CommandCenter.Start.{initialize}
use nimble_sdk.Nimble.{initialize_nimblenet}

init_logger_key :
    (m : Moment) (l : Logger)
    → m.reopened ≡ true
    → (init_logger m true l).0.log_config ≡ record l.log_config { secret_key = default_secret_key }
unfolding init_logger
init_logger_key m l opened = simp (init_logger, opened) refl

module _ (json : Json) (network : Network) {U : Type 0} where
  cloud_rounds-set :
      (rounds : List (Moment × ℤ)) (c : CommandCenter json U)
      → c.cloud_config_set ≡ true
      → cloud_rounds json network rounds c ≡ c
  unfolding cloud_rounds set_cloud_config
  cloud_rounds-set [] c done = refl
  cloud_rounds-set ((m, ping) ∷ rounds) c done =
      let same : set_cloud_config json network m ping c ≡ c = simp (set_cloud_config, done) refl in
      rw same (cloud_rounds-set rounds c done)

  -- initialize_nimblenet on an SDK that runs, and has its configuration of the loggers from the
  -- server, reports success and keeps the configuration of the first call; but it opens the logger
  -- again, which goes back to the key that is built in, still sends to the server's address, and
  -- keeps that key in all later rounds of set_cloud_config.
  pub initialize_nimblenet_again :
      (e : ElementTypes) (parse : Text → Option ModelInfo) (session : Text → Bool)
      (create_preprocessor : U → Text → TensorInfo → Option (U × Bool))
      (new_events : List json.J → Bool → Option U) (now : ℕ) (m : Moment) (metrics : Bool)
      (config_json : Text) (config : Config json) (c : CommandCenter json U)
      (rounds : List (Moment × ℤ))
      → m.reopened ≡ true
      → c.init_locked ≡ false
      → c.initialize_success ≡ true
      → c.cloud_config_set ≡ true
      → load_user_config json config_json ≡ some config
      → config.valid ≡ true
      → (c' : CommandCenter json U) × (initialize_nimblenet json network e parse session
            create_preprocessor new_events now m true metrics config_json c
          ≡ some (c', 1))
        × (c'.config ≡ c.config)
        × ((cloud_rounds json network rounds c').logger.log_config.secret_key ≡ default_secret_key)
        × ((cloud_rounds json network rounds c').logger.log_config.host ≡ c.logger.log_config.host)
  unfolding initialize_nimblenet init_logger update_device_details
  initialize_nimblenet_again e parse session create_preprocessor new_events now m metrics
        config_json config c rounds opened unlocked running set loads valid =
      let l =
        update_device_details config.device_id config.client_id config.debug
          (init_logger m true c.logger).0 in
      let c' = record c { logger = l } in
      let same = cloud_rounds-set rounds c' set in
      let key = init_logger_key m c.logger opened in
      (
        c',
        simp
            (initialize_nimblenet, init_logger, opened, loads, valid, initialize, unlocked, running)
            refl,
        refl,
        rw same (ap (λ (k : LoggingConfig). k.secret_key) key),
        rw same (ap (λ (k : LoggingConfig). k.host) key),
      )
