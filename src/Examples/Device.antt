-- ===== src/Examples/Device.antt =====
-- The server and the resources at a network that always accepts or always refuses.
use nimble_sdk.Prelude.{
  ℕ, ◌+◌, ◌≤◌, ◌≡◌, refl, true, false, none, some, [], ◌∷◌, codes, compare_text, arith, IfSome,
  length,
}
use nimble_sdk.Prelude.Map.{find, insert}
use nimble_sdk.Prelude.Int.{pos}
use nimble_sdk.FeatureStore.{
  FeatureStoreManager, FeatureData, new_feature_store, load_feature_store, loaded, get_read_lock,
  get_feature, get_version, FeatureStore,
}
use nimble_sdk.FeatureStore.Laws.{load_feature_store_lem}
use nimble_sdk.Server.{
  Server, ServerConfig, Network, device_register, init, send_request, register_response,
  base_status, get_feature_version, get_with_retries,
}
use nimble_sdk.Server.Registration.{init-device_register}
use nimble_sdk.Executor.Structs.{PlanData}
use nimble_sdk.Executor.Manager.{new_executor}
use nimble_sdk.Executor.Manager.Retries.{retries_of}
use nimble_sdk.Resources.{
  Resources, get_inference_plan_data_from_device, save_inference_plan_data_on_device,
  get_feature_data_from_device, save_feature_data_on_device,
}
use nimble_sdk.Resources.Device.{get_plan_data-save, get_feature_data-save}
use nimble_sdk.Resources.Retries.{update_rounds, update_rounds-bounded}
use nimble_sdk.Resources.Features.{update_feature_rounds, expired_feature_stays_expired}
use nimble_sdk.Examples.Inference.{types}
use nimble_sdk.Examples.ToyJson.{toy_json, toy_json-ReadsBack, write_object}

-- Every request is answered with success and a token.
abbrev pub accepting : Network
accepting sent r = record {
  status_code = pos 200;
  body = write_object ((codes "status", 200 ∷ []) ∷ (codes "token", codes "t") ∷ []);
}

-- Every request is refused for its header.
abbrev pub refusing : Network
refusing sent r = record { status_code = pos 401; body = [] }

abbrev pub config : ServerConfig
config = record {
  host = codes "https://h";
  device_id = codes "d";
  client_id = codes "c";
  client_secret = codes "s";
  model_ids = codes "m" ∷ [];
}

abbrev pub server : Server
server = record {
  header = [];
  host = codes "https://h";
  config = config;
  register_retries = 3;
  register_done = false;
  files = [];
  sent = [];
}

abbrev restarted : Server
restarted = record server { files = (device_register toy_json accepting server).0.files }

init-device_register_example :
    ((init toy_json accepting restarted).1 ≡ true)
    × ((init toy_json accepting restarted).0.header
        ≡ (device_register toy_json accepting server).0.header)
    × ((init toy_json accepting restarted).0.sent ≡ [])
unfolding device_register send_request register_response base_status compare_text
init-device_register_example =
    init-device_register toy_json accepting server restarted toy_json-ReadsBack refl refl refl
      (omega arith)

abbrev plan : PlanData
plan = record {
  valid = false;
  version = codes "1.0.0";
  plan = 8 ∷ 7 ∷ 6 ∷ [];
  extra_fields = codes "{}";
  plan_length = pos 3;
}

get_plan_data-save_example :
    get_inference_plan_data_from_device toy_json
      (save_inference_plan_data_on_device toy_json server (codes "m") plan).files
      (codes "m")
    ≡ record plan { valid = true }
get_plan_data-save_example =
    get_plan_data-save toy_json server (codes "m") plan toy_json-ReadsBack refl

abbrev prices : FeatureData
prices = record {
  valid = true;
  feature = 1 ∷ 2 ∷ 3 ∷ 4 ∷ [];
  version = codes "7";
  data_type = pos 6;
  expiry = 500;
}

get_feature_data-save_example :
    get_feature_data_from_device toy_json 400
      (save_feature_data_on_device toy_json server (codes "prices") prices).files
      (codes "prices")
    ≡ prices
get_feature_data-save_example =
    get_feature_data-save toy_json 400 server (codes "prices") prices toy_json-ReadsBack

abbrev stores : FeatureStoreManager
stores = (codes "prices", new_feature_store) ∷ (codes "stock", new_feature_store) ∷ []

load_feature_store_lem_example :
    ((load_feature_store stores (codes "prices") prices).1 ≡ true)
    × (get_read_lock (load_feature_store stores (codes "prices") prices).0 (codes "prices") ≡ true)
    × (get_feature (load_feature_store stores (codes "prices") prices).0 (codes "prices")
        ≡ some (record { data_type = pos 6; bytes = 1 ∷ 2 ∷ 3 ∷ 4 ∷ []; version = codes "7" }))
    × (get_version (load_feature_store stores (codes "prices") prices).0 (codes "prices")
        ≡ some (codes "7"))
    × (get_read_lock (load_feature_store stores (codes "prices") prices).0 (codes "stock")
        ≡ get_read_lock stores (codes "stock"))
    × (get_feature (load_feature_store stores (codes "prices") prices).0 (codes "stock")
        ≡ get_feature stores (codes "stock"))
unfolding find compare_text
load_feature_store_lem_example =
    load_feature_store_lem stores (codes "prices") (codes "stock") prices new_feature_store refl
      refl

abbrev resources : Resources ℕ
resources = record {
  server = server;
  executor = new_executor (codes "m" ∷ []) 2;
  features = stores;
  events = 0;
}

update_rounds-bounded_example :
    IfSome
      (λ (r, loads).
        loads + retries_of r.executor (codes "m") ≤ retries_of resources.executor (codes "m"))
      (update_rounds types
        (λ t. none)
        (λ t. true)
        (λ u id t. some (u, true))
        toy_json
        refusing
        7
        (codes "m")
        resources)
update_rounds-bounded_example =
    update_rounds-bounded types (λ t. none) (λ t. true) (λ u id t. some (u, true)) toy_json refusing
      7 (codes "m") resources

-- The version of the prices stays 7.
abbrev unchanged : Network
unchanged sent r = record {
  status_code = pos 200;
  body = write_object (
      (codes "status", 200 ∷ [])
      ∷ (codes "version", codes "7")
      ∷ (codes "dataType", 6 ∷ [])
      ∷ (codes "expiry", 500 ∷ [])
      ∷ []);
}

abbrev with_prices : Resources ℕ
with_prices = record resources { features = (load_feature_store stores (codes "prices") prices).0 }

abbrev prices_store : FeatureStore
prices_store = loaded new_feature_store prices

expired_feature_stays_expired_example :
    (r : Resources ℕ) × (update_feature_rounds toy_json unchanged
        (600 ∷ 700 ∷ [])
        (codes "prices")
        with_prices
      ≡ some r)
    × (length with_prices.server.sent + 2 ≤ length r.server.sent)
    × (find (codes "prices") r.features ≡ some (record prices_store { is_upto_date = true }))
unfolding find compare_text load_feature_store get_feature_version get_with_retries insert
expired_feature_stays_expired_example =
    expired_feature_stays_expired toy_json unchanged (codes "prices") (λ s. refl) 600 (700 ∷ [])
      with_prices prices_store refl (refl, (refl, tt)) (λ s. refl)
