-- ===== src/Server.antt =====
-- nimblenet/ServerAPI: the requests to the server. The network is the argument `network`: what it
-- answers to a request, given all requests before it, the newest first. The files of the device,
-- where the authorisation is kept, are part of the state (NativeInterface reads and writes them).
pub mod Bounds
pub mod Cloud
pub mod GetModel
pub mod Logs
pub mod Registration
use nimble_sdk.Prelude.{
  ℕ, zero, suc, ◌+◌, ◌-◌, ◌>>=◌, Bool, true, false, not, Option, none, some, List, [], ◌∷◌, ◌++◌,
  map, Text, codes, ◌==◌, if◌then◌else◌,
}
use nimble_sdk.Prelude.Map.{Map, find, insert}
use nimble_sdk.Prelude.Int.{ℤ, pos, eq_ℤ}
use nimble_sdk.Status.{success, auth_err, json_parse_err}
use nimble_sdk.Json.{Json, get_json, text_at, int_at}

pub record Request : Type 0 where
  pub body : Text
  pub header : Text
  pub url : Text
  pub method : Text

pub record Response : Type 0 where
  pub status_code : ℤ
  pub body : Text

abbrev pub Network : Type 0
Network = List Request → Request → Response

-- The parts of Config that the server is told.
pub record ServerConfig : Type 0 where
  pub host : Text
  pub device_id : Text
  pub client_id : Text
  pub client_secret : Text
  pub model_ids : List Text

-- The static members, the files of the device and the requests that were sent.
pub record Server : Type 0 where
  pub header : Text
  pub host : Text
  pub config : ServerConfig
  pub register_retries : ℕ
  pub register_done : Bool
  pub files : Map Text
  pub sent : List Request

abbrev pub default_register_retries : ℕ
default_register_retries = 3

abbrev pub default_auth_error_retries : ℕ
default_auth_error_retries = 3

abbrev pub auth_file : Text
auth_file = codes "AuthInfo.txt"

pub record VersionCheckResponse : Type 0 where
  pub status : ℤ
  pub file_parts : ℤ
  pub version : Text
  pub extras : Text

pub record FeatureVersionCheckResponse : Type 0 where
  pub status : ℤ
  pub version : Text
  pub data_type : ℤ
  pub expiry : ℤ

unfoldable pub send_request : Network → Server → Request → Server × Response
send_request network s r = (record s { sent = r ∷ s.sent }, network s.sent r)

abbrev pub reset_register_retries : Server → Server
reset_register_retries s = record s { register_retries = default_register_retries }

module _ (json : Json) where
  open json use {J, dump, at, of_text, of_list, of_object}

  -- from_json of BaseAPIResponse.
  unfoldable pub base_status : J → Option ℤ
  base_status j = do
    status ← int_at json (codes "status") j
    if eq_ℤ status success then some status else (do
      error ← at (codes "error") j
      description ← text_at json (codes "description") error
      some status)

  -- RegisterResponse: its status and, with success, its token.
  unfoldable pub register_response : J → Option (ℤ × Text)
  unfolding base_status
  register_response j = do
    status ← base_status j
    if eq_ℤ status success
        then (do token ← text_at json (codes "token") j; some (status, token))
        else some (status, [])

  unfoldable pub version_check_response : J → Option VersionCheckResponse
  unfolding base_status
  version_check_response j = do
    status ← base_status j
    if eq_ℤ status success
        then (do
          file_parts ← int_at json (codes "fileParts") j
          version ← text_at json (codes "version") j
          extras ← text_at json (codes "features") j
          some (record {
            status = status;
            file_parts = file_parts;
            version = version;
            extras = extras;
          }))
        else some (record { status = status; file_parts = pos 0; version = []; extras = [] })

  unfoldable pub feature_version_check_response : J → Option FeatureVersionCheckResponse
  unfolding base_status
  feature_version_check_response j = do
    status ← base_status j
    if eq_ℤ status success
        then (do
          version ← text_at json (codes "version") j
          data_type ← int_at json (codes "dataType") j
          expiry ← int_at json (codes "expiry") j
          some (record {
            status = status;
            version = version;
            data_type = data_type;
            expiry = expiry;
          }))
        else some (record { status = status; version = []; data_type = pos 0; expiry = pos 0 })

  -- to_json and from_json of AuthenticationInfo, whose object is valid once it is parsed.
  unfoldable pub dump_auth : Text → Text
  dump_auth api_header = dump (of_object ((codes "apiHeader", of_text api_header) ∷ []))

  unfoldable pub parse_auth : Text → Option Text
  parse_auth =
      get_json json
        (λ j. do api_header ← text_at json (codes "apiHeader") j; some (some api_header)) none

  -- The url of a service of the SDK: `service` is HTTPSERVICE or FEATURESERVICE.
  abbrev pub service_url : Server → Text → Text → Text
  service_url s service path = s.host ++ service ++ codes "/api/v1/clients/" ++ path

  unfoldable pub register_request : Server → Request
  register_request s = record {
    body = dump (
        of_object (
          (codes "deviceId", of_text s.config.device_id)
          ∷ (codes "clientId", of_text s.config.client_id)
          ∷ (codes "modelNames", of_list (map of_text s.config.model_ids))
          ∷ []));
    header = dump (of_object ((codes "ClientSecret", of_text s.config.client_secret) ∷ []));
    url = service_url s (codes "/mds") (s.config.client_id ++ codes "/register");
    method = codes "POST";
  }

  module _ (network : Network) where
    -- device_register, and its result.
    unfoldable pub device_register : Server → Server × Bool
    unfolding send_request register_response register_request dump_auth
    device_register s =
        let (s', r) = send_request network s (register_request s) in
        let (status, token) = get_json json register_response (json_parse_err, []) r.body in
        if not (eq_ℤ status success)
        then (s', false)
        else (let bearer = of_text (codes "Bearer " ++ token) in
            let header = dump (of_object ((codes "AuthorizationId", bearer) ∷ [])) in
            (
              record s' { header = header; files = insert auth_file (dump_auth header) s'.files },
              true,
            ))

    -- `if (device_register()) return registerDone = true;` and the failure after it.
    unfoldable pub register_now : Server → Server × Bool
    unfolding device_register
    register_now s =
        let (s', registered) = device_register s in
        if registered then (record s' { register_done = true }, true) else (s', false)

    -- init; the configuration is the one of the object already.
    unfoldable pub init : Server → Server × Bool
    unfolding register_now parse_auth
    init s =
        if s.register_done
        then (s, true)
        else if s.register_retries == 0
        then (s, false)
        else (let s' = record s {
          register_retries = s.register_retries - 1;
          host = s.config.host;
        } in
            elim (find auth_file s'.files) [
              | none ↦ register_now s'
              | some content ↦ elim (parse_auth content) [
                | none ↦ register_now s'
                | some header ↦ (record s' { header = header; register_done = true }, true)
              ]
            ])

    abbrev pub get_request : Server → Text → Request
    get_request s url = record { body = []; header = s.header; url = url; method = codes "GET" }

    -- What get_plan, get_feature, version_check, get_feature_version and get_cloud_config do with
    -- their url: the request, and again after a registration where the server refuses the header.
    unfoldable pub get_with_retries : ℕ → Text → Server → Server × Response
    unfolding send_request device_register
    get_with_retries zero url s = send_request network s (get_request s url)
    get_with_retries (suc retries) url s =
        let (s', r) = send_request network s (get_request s url) in
        let (s'', registered) = device_register s' in
        if not (eq_ℤ r.status_code auth_err)
        then (s', r)
        else if registered
        then get_with_retries retries url s''
        else (s'', r)

    unfoldable pub get_plan : ℕ → Text → Text → Text → Server → Server × Response
    unfolding get_with_retries
    get_plan retries model_id version part s =
        get_with_retries retries
          (service_url s (codes "/mds") (
            s.config.client_id
            ++ codes "/models/"
            ++ model_id
            ++ codes "/versions/"
            ++ version
            ++ codes "/parts/"
            ++ part
            ++ codes "?planType=inference"))
          s

    unfoldable pub version_check : ℕ → Text → Server → Server × VersionCheckResponse
    unfolding get_with_retries version_check_response
    version_check retries model_id s =
        let (s', r) =
          get_with_retries retries
            (service_url s (codes "/mds")
              (s.config.client_id ++ codes "/models/" ++ model_id ++ codes "/version"))
            s in
        let failed : VersionCheckResponse = record {
          status = json_parse_err;
          file_parts = pos 0;
          version = [];
          extras = [];
        } in
        (s', get_json json version_check_response failed r.body)

    unfoldable pub get_feature : ℕ → Text → Text → Server → Server × Response
    unfolding get_with_retries
    get_feature retries feature_name version s =
        get_with_retries retries
          (service_url s (codes "/nimblesync") (
            s.config.client_id
            ++ codes "/features/"
            ++ feature_name
            ++ codes "/versions/"
            ++ version))
          s

    unfoldable pub get_feature_version : ℕ → Text → Server → Server × FeatureVersionCheckResponse
    unfolding get_with_retries feature_version_check_response
    get_feature_version retries feature_name s =
        let (s', r) =
          get_with_retries retries
            (service_url s (codes "/nimblesync")
              (s.config.client_id ++ codes "/features/" ++ feature_name ++ codes "/version"))
            s in
        let failed : FeatureVersionCheckResponse = record {
          status = json_parse_err;
          version = [];
          data_type = pos 0;
          expiry = pos 0;
        } in
        (s', get_json json feature_version_check_response failed r.body)
