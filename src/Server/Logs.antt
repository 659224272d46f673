-- ===== src/Server/Logs.antt =====
-- nimblenet/ServerAPI: upload_logs.
use nimble_sdk.Prelude.{Bool, true, false, not, Text, codes, if◌then◌else◌}
use nimble_sdk.Prelude.Int.{pos, eq_ℤ}
use nimble_sdk.Json.{Json}
use nimble_sdk.Server.{Network, Server, Request, send_request}

module _ (json : Json) where
  open json use {J, dump}

  pub record LogRequestBody : Type 0 where
    pub host : Text
    pub headers : J
    pub body : J

  unfoldable pub log_request : LogRequestBody → Request
  log_request b = record {
    body = dump b.body;
    header = dump b.headers;
    url = b.host;
    method = codes "POST";
  }

  unfoldable pub upload_logs : Network → LogRequestBody → Server → Server × Bool
  unfolding send_request log_request
  upload_logs network b s =
      let (s', r) = send_request network s (log_request b) in
      if not (eq_ℤ r.status_code (pos 202)) then (s', false) else (s', true)
