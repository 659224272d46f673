-- ===== src/Config.antt =====
-- nimblenet/ConfigManager: the configuration that a client gives.
pub mod Host
use nimble_sdk.Prelude.{
  ℕ, zero, suc, Bool, true, false, Option, none, some, List, [], ◌∷◌, Text, codes, length, ◌==◌,
  if◌then◌else◌, ◌>>=◌,
}
use nimble_sdk.Prelude.Int.{ℤ, pos}
use nimble_sdk.Json.{Json, text_at, texts_at, all_texts, optional}

-- `s.back()` of a string that is not empty, and the string without it.
abbrev pub back : ℕ → Text → ℕ
back c [] = c
back c (d ∷ t) = back d t

abbrev pub drop_back : ℕ → Text → Text
drop_back c [] = []
drop_back c (d ∷ t) = c ∷ drop_back d t

-- `while (host.back() == '/') host = host.substr(0, host.size() - 1)`, with a round for each character.
-- `back` of an empty string is undefined behaviour.
strip_rounds : ℕ → Text → Option Text
strip_rounds rounds [] = none
strip_rounds zero (c ∷ t) = some (c ∷ t)
strip_rounds (suc rounds) (c ∷ t) =
    let rest = strip_rounds rounds (drop_back c t) in
    if back c t == b'/' then rest else some (c ∷ t)

unfoldable pub strip_slashes : Text → Option Text
unfolding strip_rounds
strip_slashes host = strip_rounds (length host) host

module _ (json : Json) where
  open json use {J, parse, as_text, as_int, as_bool, as_list}

  pub record Config : Type 0 where
    pub valid : Bool
    pub device_id : Text
    pub client_id : Text
    pub host : Text
    pub client_secret : Text
    pub model_ids : List Text
    pub feature_stores : List Text
    pub table_infos : List J
    pub debug : Bool
    pub max_inputs_to_save : ℤ

  abbrev pub no_config : Config
  no_config = record {
    valid = false;
    device_id = [];
    client_id = [];
    host = [];
    client_secret = [];
    model_ids = [];
    feature_stores = [];
    table_infos = [];
    debug = false;
    max_inputs_to_save = pos 0;
  }

  -- from_json up to the loop over the host; `none` is an exception.
  unfoldable pub config_fields : J → Option Config
  config_fields j = do
    host ← text_at json (codes "host") j
    device_id ← text_at json (codes "deviceID") j
    client_id ← text_at json (codes "clientID") j
    model_ids ← texts_at json (codes "modelIDs") j
    client_secret ← text_at json (codes "clientSecret") j
    feature_stores ←
        optional json (λ v. do vs ← as_list v; all_texts json vs) (codes "featureStores") j []
    table_infos ← optional json as_list (codes "databaseConfig") j []
    max_inputs ← optional json as_int (codes "maxInputsToSave") j (pos 0)
    some (record no_config {
      host = host;
      device_id = device_id;
      client_id = client_id;
      model_ids = model_ids;
      client_secret = client_secret;
      feature_stores = feature_stores;
      table_infos = table_infos;
      max_inputs_to_save = max_inputs;
    })

  -- `none` is a fault; after an exception the configuration is the empty one.
  unfoldable pub load_user_config : Text → Option Config
  unfolding config_fields strip_slashes
  load_user_config s = elim (parse s) [
    | none ↦ some no_config
    | some j ↦ elim (config_fields j) [
      | none ↦ some no_config
      | some c ↦ (do
        host ← strip_slashes c.host
        elim (optional json as_bool (codes "debug") j false) [
          | none ↦ some no_config
          | some debug ↦ some (record c { host = host; debug = debug; valid = true })
        ])
    ]
  ]
