-- ===== src/FeatureStore.antt =====
-- nimblenet/FeatureStore: the feature vectors in memory, by name. A lock that is held is not state
-- of the model: get_read_lock is its result, whether the feature may be read.
pub mod Laws
use nimble_sdk.Prelude.{
  ℕ, Bool, true, false, not, Option, none, some, List, [], ◌∷◌, Text, ltb, if◌then◌else◌,
}
use nimble_sdk.Prelude.Map.{Map, find, insert}
use nimble_sdk.Prelude.Int.{ℤ, minus_one}

pub record Feature : Type 0 where
  pub data_type : ℤ
  pub bytes : List ℕ
  pub version : Text

pub record FeatureStore : Type 0 where
  pub valid : Bool
  pub feature : Feature
  pub expiry : ℕ
  pub is_upto_date : Bool

-- FeatureData of ResourceManagerStructs.h.
pub record FeatureData : Type 0 where
  pub valid : Bool
  pub feature : List ℕ
  pub version : Text
  pub data_type : ℤ
  pub expiry : ℕ

abbrev pub no_feature : Feature
no_feature = record { data_type = minus_one; bytes = []; version = [] }

abbrev pub new_feature_store : FeatureStore
new_feature_store = record { valid = false; feature = no_feature; expiry = 0; is_upto_date = false }

abbrev pub FeatureStoreManager : Type 0
FeatureStoreManager = Map FeatureStore

unfoldable pub new_feature_store_manager : List Text → FeatureStoreManager
new_feature_store_manager [] = []
new_feature_store_manager (name ∷ names) =
    insert name new_feature_store (new_feature_store_manager names)

unfoldable pub get_read_lock : FeatureStoreManager → Text → Bool
get_read_lock m name = elim (find name m) [ none ↦ false | some f ↦ f.valid ]

-- get_feature and get_version return a reference to a temporary for a name that is not configured,
-- which is a fault where it is read.
unfoldable pub get_feature : FeatureStoreManager → Text → Option Feature
get_feature m name = elim (find name m) [ none ↦ none | some f ↦ some f.feature ]

-- FeatureStore.load_feature_store.
abbrev pub loaded : FeatureStore → FeatureData → FeatureStore
loaded f d = record f {
  valid = true;
  feature = record { data_type = d.data_type; bytes = d.feature; version = d.version };
  expiry = d.expiry;
}

unfoldable pub load_feature_store :
    FeatureStoreManager → Text → FeatureData → FeatureStoreManager × Bool
load_feature_store m name d = elim (find name m) [
  | none ↦ (m, false)
  | some f ↦ (insert name (loaded f d) m, true)
]

unfoldable pub get_version : FeatureStoreManager → Text → Option Text
get_version m name = elim (find name m) [ none ↦ none | some f ↦ some f.feature.version ]

-- `time(NULL)` is the argument `now`.
unfoldable pub should_download : ℕ → FeatureStoreManager → Text → Bool
should_download now m name = elim (find name m) [
  | none ↦ false
  | some f ↦ if not f.is_upto_date then true else ltb f.expiry now
]

unfoldable pub set_upto_date : FeatureStoreManager → Text → FeatureStoreManager
set_upto_date m name = elim (find name m) [
  | none ↦ m
  | some f ↦ insert name (record f { is_upto_date = true }) m
]
