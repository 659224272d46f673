-- ===== src/Server/Cloud.antt =====
-- nimblenet/ServerAPI: get_cloud_config and its response. The time that the call takes is left out.
use nimble_sdk.Prelude.{ℕ, ◌++◌, not, Option, some, [], Text, codes, if◌then◌else◌, ◌>>=◌}
use nimble_sdk.Prelude.Int.{ℤ, pos, eq_ℤ}
use nimble_sdk.Status.{success, json_parse_err}
use nimble_sdk.Json.{Json, get_json, optional}
use nimble_sdk.Server.{Network, Server, base_status, get_with_retries, service_url}

pub record CloudConfigResponse : Type 0 where
  pub status : ℤ
  pub log_key : Text
  pub log_url : Text
  pub log_time_interval : ℤ
  pub metrics_key : Text
  pub metrics_time_interval : ℤ
  pub metrics_collection_interval : ℤ

abbrev pub default_upload_logs_url : Text
default_upload_logs_url = codes "https://logs.nimbleedgehq.ai"

-- CloudConfigResponse(), with a status.
abbrev pub default_cloud_config : ℤ → CloudConfigResponse
default_cloud_config status = record {
  status = status;
  log_key = [];
  log_url = default_upload_logs_url;
  log_time_interval = pos 5;
  metrics_key = [];
  metrics_time_interval = pos 5;
  metrics_collection_interval = pos 20;
}

-- The key of the logs serves for the metrics too.
unfoldable pub share_key : CloudConfigResponse → CloudConfigResponse
share_key r = if eq_ℤ r.status success then record r { metrics_key = r.log_key } else r

module _ (json : Json) where
  open json use {J, as_text, as_int}

  unfoldable pub cloud_config_response : J → Option CloudConfigResponse
  unfolding base_status
  cloud_config_response j = do
    status ← base_status json j
    let r = default_cloud_config status
    if not (eq_ℤ status success) then some r else (do
      log_key ← optional json as_text (codes "logKey") j r.log_key
      metrics_key ← optional json as_text (codes "metricsKey") j r.metrics_key
      log_url ← optional json as_text (codes "logUrl") j r.log_url
      metrics_time ← optional json as_int (codes "metricsInterval") j r.metrics_time_interval
      log_time ← optional json as_int (codes "logInterval") j r.log_time_interval
      collection ←
          optional json as_int (codes "metricsCollectionTimeInterval") j
            r.metrics_collection_interval
      some (record {
        status = status;
        log_key = log_key;
        log_url = log_url;
        log_time_interval = log_time;
        metrics_key = metrics_key;
        metrics_time_interval = metrics_time;
        metrics_collection_interval = collection;
      }))

  unfoldable pub get_cloud_config : Network → ℕ → Server → Server × CloudConfigResponse
  unfolding cloud_config_response get_with_retries share_key
  get_cloud_config network retries s =
      let (s', response) =
        get_with_retries json network retries
          (service_url json s (codes "/mds") (s.config.client_id ++ codes "/events/config")) s in
      let r =
        get_json json cloud_config_response (default_cloud_config json_parse_err) response.body in
      (s', share_key r)
