-- ===== src/FeatureStore/Laws.antt =====
-- FeatureStoreManager as a map of features.
use nimble_sdk.Prelude.{◌≡◌, refl, true, false, some, inl, inr, Option-cases, Text, eq_text}
use nimble_sdk.Prelude.Map.{find, find-insert, find-insert_self}
use nimble_sdk.FeatureStore.{
  Feature, FeatureStore, FeatureData, FeatureStoreManager, get_read_lock, get_feature,
  load_feature_store, get_version, loaded,
}

-- A feature that may be read is there.
pub get_feature-some :
    (m : FeatureStoreManager) (name : Text)
    → get_read_lock m name ≡ true
    → (v : Feature) × (get_feature m name ≡ some v)
unfolding get_read_lock get_feature
get_feature-some m name h = elim (Option-cases (find name m)) [
  | inl n ↦ let no : false ≡ true = rw (get_read_lock, n) at h in cc
  | inr (f, n) ↦ (f.feature, rw (get_feature, n) refl)
]

-- Loading a feature that the configuration names makes it readable, with the bytes, the type and
-- the version that were loaded, and leaves what is read of every other feature as it was.
pub load_feature_store_lem :
    (m : FeatureStoreManager) (name other : Text) (d : FeatureData) (f : FeatureStore)
    → find name m ≡ some f
    → eq_text other name ≡ false
    → ((load_feature_store m name d).1 ≡ true)
      × (get_read_lock (load_feature_store m name d).0 name ≡ true)
      × (get_feature (load_feature_store m name d).0 name
          ≡ some (record { data_type = d.data_type; bytes = d.feature; version = d.version }))
      × (get_version (load_feature_store m name d).0 name ≡ some d.version)
      × (get_read_lock (load_feature_store m name d).0 other ≡ get_read_lock m other)
      × (get_feature (load_feature_store m name d).0 other ≡ get_feature m other)
unfolding load_feature_store get_read_lock get_feature get_version
load_feature_store_lem m name other d f e ne =
    let self = find-insert_self name (loaded f d) m in
    let others = find-insert other name (loaded f d) m in
    simp (load_feature_store, get_read_lock, get_feature, get_version, e, self, others, ne)
      (refl, refl, refl, refl, refl, refl)
