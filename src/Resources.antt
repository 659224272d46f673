-- ===== src/Resources.antt =====
-- nimblenet/ResourceManager: the models and features that come from the device's files or from the
-- server. The state is what the manager reaches through the command center.
pub mod Device
pub mod Retries
pub mod Features
use nimble_sdk.Prelude.{
  ℕ, zero, suc, ◌+◌, ◌-◌, ◌^◌, ◌/◌, ◌%◌, ◌>>=◌, Bool, true, false, not, Option, none, some, List,
  [], ◌∷◌, ◌++◌, Text, codes, eq_text, length, ltb, if◌then◌else◌,
}
use nimble_sdk.Prelude.Map.{Map, find, insert}
use nimble_sdk.Prelude.Int.{ℤ, pos, negsuc, minus_one, eq_ℤ}
use nimble_sdk.Status.{success, executor_load_model_err}
use nimble_sdk.Json.{Json, get_json, text_at, int_at}
use nimble_sdk.Server.{
  Server, Network, FeatureVersionCheckResponse, version_check, get_plan, get_feature,
  get_feature_version, default_auth_error_retries,
}
use nimble_sdk.FeatureStore.{
  FeatureStoreManager, FeatureData, load_feature_store, get_version, should_download, set_upto_date,
}
use nimble_sdk.Executor.Structs.{ElementTypes, TensorInfo, ModelInfo, PlanData}
use nimble_sdk.Executor.Manager.{
  OnnxExecutor, get_plan_version, plan_updated, can_model_retry, update_model_retries, load_plan,
}

pub record Resources (U : Type 0) : Type 0 where
  pub server : Server
  pub executor : OnnxExecutor
  pub features : FeatureStoreManager
  pub events : U

abbrev pub plan_metadata_file : Text → Text
plan_metadata_file model_id = model_id ++ codes "inferencePlanData.txt"

abbrev pub plan_file : Text → Text
plan_file model_id = model_id ++ codes "inferencePlan.txt"

abbrev pub feature_metadata_file : Text → Text
feature_metadata_file name = name ++ codes "featureStore.txt"

abbrev pub feature_file : Text → Text
feature_file name = name ++ codes "featureVector.txt"

abbrev pub no_plan : PlanData
no_plan = record { valid = false; version = []; plan = []; extra_fields = []; plan_length = pos 0 }

abbrev pub no_feature_data : FeatureData
no_feature_data = record {
  valid = false;
  feature = [];
  version = [];
  data_type = minus_one;
  expiry = 0;
}

-- An int that becomes a uint64_t.
abbrev pub as_uint64 : ℤ → ℕ
as_uint64 (pos n) = n
as_uint64 (negsuc n) = 2 ^ 64 - 1 - n

-- `to_string(int)` of a number that is not negative: n + 1 rounds are enough for its digits.
unfoldable pub decimal : ℕ → Text
decimal n = digits (suc n) n
  where
    digits : ℕ → ℕ → Text
    digits zero n = []
    digits (suc fuel) n =
        let rest = digits fuel (n / 10) in
        if ltb n 10 then (n + 48) ∷ [] else rest ++ (n % 10 + 48) ∷ []

abbrev pub save_file : Text → Text → Server → Server
save_file content name s = record s { files = insert name content s.files }

module _ (json : Json) where
  open json use {J, dump, of_text, of_int, of_object}

  -- to_json of PlanData.
  unfoldable pub dump_plan : PlanData → Text
  dump_plan d = dump (
      of_object (
        (codes "version", of_text d.version)
        ∷ (codes "extras", of_text d.extra_fields)
        ∷ (codes "planLength", of_int d.plan_length)
        ∷ []))

  unfoldable pub plan_from_json : J → Option PlanData
  plan_from_json j = do
    version ← text_at json (codes "version") j
    extras ← text_at json (codes "extras") j
    plan_length ← int_at json (codes "planLength") j
    some (record no_plan { version = version; extra_fields = extras; plan_length = plan_length })

  unfoldable pub get_inference_plan_data_from_device : Map Text → Text → PlanData
  unfolding plan_from_json
  get_inference_plan_data_from_device files model_id =
      elim (find (plan_metadata_file model_id) files) [
        | none ↦ no_plan
        | some metadata ↦
            let d = get_json json plan_from_json no_plan metadata in
            elim (find (plan_file model_id) files) [
              | none ↦ d
              | some plan ↦
                  if not (eq_ℤ d.plan_length (pos (length plan)))
                  then record d { plan = plan; valid = false }
                  else record d { plan = plan; valid = true }
            ]
      ]

  unfoldable pub save_inference_plan_data_on_device : Server → Text → PlanData → Server
  unfolding dump_plan
  save_inference_plan_data_on_device s model_id d =
      save_file d.plan (plan_file model_id)
        (save_file (dump_plan d) (plan_metadata_file model_id) s)

  unfoldable pub dump_feature : FeatureData → Text
  dump_feature d = dump (
      of_object (
        (codes "version", of_text d.version)
        ∷ (codes "dataType", of_int d.data_type)
        ∷ (codes "featureLength", of_int (pos (length d.feature)))
        ∷ (codes "expiry", of_int (pos d.expiry))
        ∷ []))

  -- The feature's bytes, whose length is read here too, come from their own file.
  unfoldable pub feature_from_json : J → Option FeatureData
  feature_from_json j = do
    version ← text_at json (codes "version") j
    data_type ← int_at json (codes "dataType") j
    feature_length ← int_at json (codes "featureLength") j
    expiry ← int_at json (codes "expiry") j
    some (record no_feature_data {
      valid = true;
      version = version;
      data_type = data_type;
      expiry = as_uint64 expiry;
    })

  unfoldable pub get_feature_data_from_device : ℕ → Map Text → Text → FeatureData
  unfolding feature_from_json
  get_feature_data_from_device now files name = elim (find (feature_metadata_file name) files) [
    | none ↦ no_feature_data
    | some metadata ↦
        let d = get_json json feature_from_json no_feature_data metadata in
        if not d.valid
        then no_feature_data
        else if ltb d.expiry now
        then no_feature_data
        else elim (find (feature_file name) files) [
          | none ↦ no_feature_data
          | some bytes ↦ record d { feature = bytes }
        ]
  ]

  unfoldable pub save_feature_data_on_device : Server → Text → FeatureData → Server
  unfolding dump_feature
  save_feature_data_on_device s name d =
      save_file (dump_feature d) (feature_metadata_file name)
        (save_file d.feature (feature_file name) s)

  unfoldable pub load_feature_from_device :
      {U : Type 0} → ℕ → Resources U → Text → Resources U × Bool
  unfolding get_feature_data_from_device
  load_feature_from_device now r name =
      let d = get_feature_data_from_device now r.server.files name in
      if d.valid
      then (let (features, loaded) = load_feature_store r.features name d in
          (record r { features = features }, loaded))
      else (r, false)

  module _ (network : Network) where
    -- The loop over the parts of a plan: n parts from `part` on. The status is that of the part that
    -- failed, or success.
    unfoldable pub download_parts : ℕ → ℕ → Text → Text → Text → Server → Server × Text × ℤ
    unfolding get_plan decimal
    download_parts zero part model_id version plan s = (s, plan, success)
    download_parts (suc n) part model_id version plan s =
        let (s', r) =
          get_plan json network default_auth_error_retries model_id version (decimal part) s in
        if not (eq_ℤ r.status_code success)
        then (s', plan, r.status_code)
        else download_parts n (part + 1) model_id version (plan ++ r.body) s'

    -- The end of update_feature_if_required: the server has another version.
    unfoldable pub download_feature :
        {U : Type 0} → Resources U → Text → FeatureVersionCheckResponse → Server → Resources U
    unfolding get_feature save_feature_data_on_device
    download_feature r name v s =
        let (s', response) = get_feature json network default_auth_error_retries name v.version s in
        if not (eq_ℤ response.status_code success)
        then record r { server = s' }
        else (let d : FeatureData = record {
          valid = true;
          feature = response.body;
          version = v.version;
          data_type = v.data_type;
          expiry = as_uint64 v.expiry;
        } in
            let (features, loaded) = load_feature_store r.features name d in
            if not loaded then record r { server = s'; features = features } else record r {
              server = save_feature_data_on_device s' name d;
              features = set_upto_date features name;
            })

    unfoldable pub update_feature_if_required :
        {U : Type 0} → ℕ → Resources U → Text → Option (Resources U)
    unfolding get_feature_version download_feature
    update_feature_if_required now r name =
        if not (should_download now r.features name)
        then some r
        else (let (s, v) =
              get_feature_version json network default_auth_error_retries name r.server in
            if not (eq_ℤ v.status success) then some (record r { server = s }) else (do
              previous ← get_version r.features name
              if eq_text previous v.version
                  then some (record r { server = s; features = set_upto_date r.features name })
                  else some (download_feature r name v s)))

    module _ {U : Type 0} (e : ElementTypes) (parse : Text → Option ModelInfo)
        (session : Text → Bool)
        (create_preprocessor : U → Text → TensorInfo → Option (U × Bool)) where
      unfoldable pub load_plan_from_device : Resources U → Text → Option (Resources U × Bool)
      unfolding get_inference_plan_data_from_device
      load_plan_from_device r model_id =
          let d = get_inference_plan_data_from_device r.server.files model_id in
          if d.valid
          then (do
            (x, events, loaded) ←
                load_plan e parse session create_preprocessor r.executor model_id d r.events
            some (record r { executor = x; events = events }, loaded))
          else some (r, false)

      -- The end of ResourceManager.load_plan: the plan is saved, loaded, and noted as updated or not.
      unfoldable pub install_plan : Resources U → Text → PlanData → Option (Resources U × ℤ)
      unfolding save_inference_plan_data_on_device
      install_plan r model_id d = do
        (x, events, loaded) ←
            load_plan e parse session create_preprocessor r.executor model_id d r.events
        some (
          record r {
            server = save_inference_plan_data_on_device r.server model_id d;
            executor = plan_updated x model_id loaded;
            events = events;
          },
          if loaded then success else executor_load_model_err,
        )

      -- ResourceManager.load_plan, and its status. A negative number of parts is a fault: the
      -- reservation for it throws.
      unfoldable pub load_plan_from_server : Resources U → Text → Option (Resources U × ℤ)
      unfolding version_check download_parts install_plan
      load_plan_from_server r model_id =
          let (s, v) = version_check json network default_auth_error_retries model_id r.server in
          let note = λ (r' : Resources U) (updated : Bool). (record r' {
            executor = plan_updated r'.executor model_id updated;
          }) in
          let checked = record r { server = s } in
          if not (eq_ℤ v.status success)
          then some (checked, v.status)
          else if eq_text (get_plan_version r.executor model_id) v.version
          then some (note checked true, success)
          else elim v.file_parts [
            | negsuc n ↦ none
            | pos n ↦
                let (s', plan, status) = download_parts n 1 model_id v.version [] s in
                let downloaded = record r { server = s' } in
                if not (eq_ℤ status success)
                then some (note downloaded false, status)
                else install_plan downloaded model_id record {
                  valid = false;
                  version = v.version;
                  plan = plan;
                  extra_fields = v.extras;
                  plan_length = pos (length plan);
                }
          ]

      -- All three branches on the status count the attempt alike.
      unfoldable pub update_plan_if_required : Resources U → Text → Option (Resources U)
      unfolding load_plan_from_server
      update_plan_if_required r model_id =
          let (x, retry) = can_model_retry r.executor model_id in
          let asked = record r { executor = x } in
          if not retry then some asked else (do
            (r', status) ← load_plan_from_server asked model_id
            some (record r' { executor = update_model_retries r'.executor model_id }))
