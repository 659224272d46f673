-- ===== src/Server/GetModel.antt =====
-- nimblenet/ServerAPI: get_model, which the SDK does not call.
use nimble_sdk.Prelude.{
  ℕ, zero, suc, not, Option, some, [], ◌++◌, Text, codes, if◌then◌else◌, ◌>>=◌,
}
use nimble_sdk.Prelude.Int.{ℤ, eq_ℤ}
use nimble_sdk.Status.{success, auth_err, json_parse_err}
use nimble_sdk.Json.{Json, get_json, text_at}
use nimble_sdk.Server.{Server, Network, send_request, base_status, device_register}

-- `part_num` is the text of the number.
pub record ModelRequest : Type 0 where
  pub device_id : Text
  pub client_id : Text
  pub part_num : Text
  pub version : Text

pub record GetModelResponse : Type 0 where
  pub status : ℤ
  pub model_weights : Text
  pub version : Text

-- There is no slash between the host, whose slashes are taken away, and the path.
unfoldable pub model_url : Server → ModelRequest → Text
model_url s r =
    s.host
    ++ codes "v1/getmodel/clientId/"
    ++ r.client_id
    ++ codes "/deviceId/"
    ++ r.device_id
    ++ codes "/numPart/"
    ++ r.part_num
    ++ codes "/version/"
    ++ r.version

module _ (json : Json) where
  open json use {J}

  unfoldable pub get_model_response : J → Option GetModelResponse
  unfolding base_status
  get_model_response j = do
    status ← base_status json j
    if eq_ℤ status success
        then (do
          weights ← text_at json (codes "modelWeights") j
          version ← text_at json (codes "modelVersion") j
          some (record { status = status; model_weights = weights; version = version }))
        else some (record { status = status; model_weights = []; version = [] })

  abbrev pub no_model : GetModelResponse
  no_model = record { status = json_parse_err; model_weights = []; version = [] }

  -- Here the status in the answer's body decides about a retry.
  unfoldable pub get_model : Network → ℕ → ModelRequest → Server → Server × GetModelResponse
  unfolding send_request get_model_response device_register model_url
  get_model network zero m s =
      let (s', r) =
        send_request network s
          (record { body = []; header = s.header; url = model_url s m; method = codes "GET" }) in
      (s', get_json json get_model_response no_model r.body)
  get_model network (suc retries) m s =
      let (s', r) =
        send_request network s
          (record { body = []; header = s.header; url = model_url s m; method = codes "GET" }) in
      let answer = get_json json get_model_response no_model r.body in
      let (s'', registered) = device_register json network s' in
      let again = get_model network retries m s'' in
      if not (eq_ℤ answer.status auth_err)
      then (s', answer)
      else if registered
      then again
      else (s'', answer)
