-- ===== src/Examples/Cloud.antt =====
-- The configuration of the loggers at a network that always accepts or always refuses.
use nimble_sdk.Prelude.{
  ℕ, ◌+◌, ◌*◌, ◌≤◌, ◌≡◌, refl, List, [], ◌∷◌, none, false, true, codes, length, compare_text,
}
use nimble_sdk.Prelude.Int.{ℤ, pos}
use nimble_sdk.Server.{send_request, get_with_retries, base_status}
use nimble_sdk.Server.Cloud.{get_cloud_config, cloud_config_response, share_key}
use nimble_sdk.Config.{no_config}
use nimble_sdk.Logger.{Moment, new_logger}
use nimble_sdk.CommandCenter.{CommandCenter, set_cloud_config, cloud_rounds}
use nimble_sdk.CommandCenter.Cloud.{cloud_rounds-sent, set_cloud_config_keys}
use nimble_sdk.Examples.ToyJson.{toy_json}
use nimble_sdk.Examples.Device.{accepting, refusing, server}

-- A command center whose manager of the user events is a number.
abbrev pub center : CommandCenter toy_json ℕ
center = record {
  server = server;
  config = no_config toy_json;
  init_locked = false;
  initialize_success = false;
  inference_count = 0;
  inference_start_map = [];
  last_metric_time = 0;
  cloud_config = record {
    log_key = [];
    metrics_key = [];
    log_url = [];
    log_time_interval = pos 5;
    metrics_time_interval = pos 5;
    metrics_collection_interval = pos 20;
  };
  cloud_config_set = false;
  cloud_config_fetch_retries = 3;
  logger = new_logger;
  metrics_agent = new_logger;
  parts = none;
}

-- A moment at which every call of the file system succeeds.
abbrev pub moment : ℕ → Moment
moment now = record {
  date = codes "2023-01-01T00:00:00";
  file_date = codes "20230101";
  now = now;
  later = now + 1;
  renamed = true;
  reopened = true;
  removed = true;
  readable = true;
}

abbrev rounds : List (Moment × ℤ)
rounds = (moment 1, pos 9) ∷ (moment 2, pos 8) ∷ (moment 3, pos 7) ∷ []

cloud_rounds-sent_example :
    length (cloud_rounds toy_json refusing rounds center).server.sent
      + 7 * (cloud_rounds toy_json refusing rounds center).cloud_config_fetch_retries
    ≤ length center.server.sent + 7 * center.cloud_config_fetch_retries
cloud_rounds-sent_example = cloud_rounds-sent toy_json refusing rounds center

set_cloud_config_keys_example :
    ((set_cloud_config toy_json accepting (moment 1) (pos 9) center).cloud_config.metrics_key
      ≡ (set_cloud_config toy_json accepting (moment 1) (pos 9) center).cloud_config.log_key)
    × ((set_cloud_config toy_json accepting
          (moment 1)
          (pos 9)
          center).cloud_config.metrics_collection_interval
        ≡ center.cloud_config.metrics_collection_interval)
unfolding set_cloud_config get_cloud_config get_with_retries send_request cloud_config_response
    base_status share_key compare_text
set_cloud_config_keys_example =
    set_cloud_config_keys toy_json accepting (moment 1) (pos 9) center refl refl
