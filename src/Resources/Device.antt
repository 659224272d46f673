-- ===== src/Resources/Device.antt =====
-- What ResourceManager saves on the device and reads from it later.
use nimble_sdk.Prelude.{
  ℕ, ◌≡◌, ◌∙◌, refl, ap, true, false, inl, inr, Bool-cases, some, Text, List, [], ◌∷◌, ◌++◌, codes,
  if◌then◌else◌, arith, length, ltb, compare_text, eq_text,
}
use nimble_sdk.Prelude.Map.{Map, find, insert, find-insert, find-insert_self}
use nimble_sdk.Prelude.Int.{pos, eq_ℤ}
use nimble_sdk.Json.{Json, ReadsBack, get_json, text_at, int_at}
use nimble_sdk.Server.{Server}
use nimble_sdk.FeatureStore.{FeatureData}
use nimble_sdk.Executor.Structs.{PlanData}
use nimble_sdk.Resources.{
  plan_file, plan_metadata_file, feature_file, feature_metadata_file, no_plan, no_feature_data,
  dump_plan, plan_from_json, dump_feature, feature_from_json, get_inference_plan_data_from_device,
  save_inference_plan_data_on_device, get_feature_data_from_device, save_feature_data_on_device,
}

compare_text-append :
    (prefix s t : Text) → compare_text (prefix ++ s) (prefix ++ t) ≡ compare_text s t
unfolding compare_text
compare_text-append [] s t = refl
compare_text-append (c ∷ prefix) s t = ground (arith, compare_text-append prefix s t)

eq_pos : (n : ℕ) → eq_ℤ (pos n) (pos n) ≡ true
eq_pos n = ground arith

-- A file of an owner that was saved before another one of the same owner.
saved_before :
    (owner s t content other : Text) (files : Map Text)
    → eq_text s t ≡ false
    → find (owner ++ s) (insert (owner ++ t) other (insert (owner ++ s) content files))
      ≡ some content
saved_before owner s t content other files ne =
    let apart : eq_text (owner ++ s) (owner ++ t) ≡ false =
      rw (eq_text, compare_text-append owner s t) ne in
    let first = find-insert_self (owner ++ s) content files in
    let second = find-insert (owner ++ s) (owner ++ t) other (insert (owner ++ s) content files) in
    second ∙ rw apart first

module _ (json : Json) where
  get_json-dump_plan :
      (d : PlanData)
      → ReadsBack json
      → get_json json (plan_from_json json) no_plan (dump_plan json d) ≡ record no_plan {
        version = d.version;
        extra_fields = d.extra_fields;
        plan_length = d.plan_length;
      }
  unfolding plan_from_json dump_plan find compare_text
  get_json-dump_plan d reads =
      let fields : List (Text × json.J) =
        (codes "version", json.of_text d.version)
        ∷ (codes "extras", json.of_text d.extra_fields)
        ∷ (codes "planLength", json.of_int d.plan_length)
        ∷ [] in
      let at_version : json.at (codes "version") (json.of_object fields)
          ≡ some (json.of_text d.version) =
        reads.at-of_object (codes "version") fields in
      let at_extras : json.at (codes "extras") (json.of_object fields)
          ≡ some (json.of_text d.extra_fields) =
        reads.at-of_object (codes "extras") fields in
      let at_length : json.at (codes "planLength") (json.of_object fields)
          ≡ some (json.of_int d.plan_length) =
        reads.at-of_object (codes "planLength") fields in
      rw
        (
          dump_plan,
          get_json,
          plan_from_json,
          text_at,
          int_at,
          reads.parse-dump fields,
          at_version,
          at_extras,
          at_length,
          reads.as_text-of_text d.version,
          reads.as_text-of_text d.extra_fields,
          reads.as_int-of_int d.plan_length,
        )
        refl

  -- A plan that was saved on the device with its length is read back whole and valid.
  pub get_plan_data-save :
      (s : Server) (model_id : Text) (d : PlanData)
      → ReadsBack json
      → d.plan_length ≡ pos (length d.plan)
      → get_inference_plan_data_from_device json
          (save_inference_plan_data_on_device json s model_id d).files
          model_id
        ≡ record d { valid = true }
  unfolding get_inference_plan_data_from_device save_inference_plan_data_on_device compare_text
  get_plan_data-save s model_id d reads n =
      let files = (save_inference_plan_data_on_device json s model_id d).files in
      let metadata =
        saved_before model_id (codes "inferencePlanData.txt") (codes "inferencePlan.txt")
          (dump_plan json d) d.plan s.files refl in
      let plan =
        find-insert_self (plan_file model_id) d.plan
          (insert (plan_metadata_file model_id) (dump_plan json d) s.files) in
      let parsed = get_json-dump_plan d reads in
      let full : eq_ℤ d.plan_length (pos (length d.plan)) ≡ true =
        ap (λ z. eq_ℤ z (pos (length d.plan))) n ∙ eq_pos (length d.plan) in
      simp (get_inference_plan_data_from_device, metadata, plan, parsed, full) refl

  get_json-dump_feature :
      (d : FeatureData)
      → ReadsBack json
      → get_json json (feature_from_json json) no_feature_data (dump_feature json d)
        ≡ record d { valid = true; feature = [] }
  unfolding feature_from_json dump_feature find compare_text
  get_json-dump_feature d reads =
      let size = pos (length d.feature) in
      let fields : List (Text × json.J) =
        (codes "version", json.of_text d.version)
        ∷ (codes "dataType", json.of_int d.data_type)
        ∷ (codes "featureLength", json.of_int size)
        ∷ (codes "expiry", json.of_int (pos d.expiry))
        ∷ [] in
      let at_version : json.at (codes "version") (json.of_object fields)
          ≡ some (json.of_text d.version) =
        reads.at-of_object (codes "version") fields in
      let at_type : json.at (codes "dataType") (json.of_object fields)
          ≡ some (json.of_int d.data_type) =
        reads.at-of_object (codes "dataType") fields in
      let at_length : json.at (codes "featureLength") (json.of_object fields)
          ≡ some (json.of_int size) =
        reads.at-of_object (codes "featureLength") fields in
      let at_expiry : json.at (codes "expiry") (json.of_object fields)
          ≡ some (json.of_int (pos d.expiry)) =
        reads.at-of_object (codes "expiry") fields in
      rw
        (
          dump_feature,
          get_json,
          feature_from_json,
          text_at,
          int_at,
          reads.parse-dump fields,
          at_version,
          at_type,
          at_length,
          at_expiry,
          reads.as_text-of_text d.version,
          reads.as_int-of_int d.data_type,
          reads.as_int-of_int size,
          reads.as_int-of_int (pos d.expiry),
        )
        refl

  -- A feature that was saved on the device is read back whole until its expiry has passed, and as no
  -- feature after that.
  pub get_feature_data-save :
      (now : ℕ) (s : Server) (name : Text) (d : FeatureData)
      → ReadsBack json
      → get_feature_data_from_device json now (save_feature_data_on_device json s name d).files name
        ≡ (if ltb d.expiry now then no_feature_data else record d { valid = true })
  unfolding get_feature_data_from_device save_feature_data_on_device compare_text
  get_feature_data-save now s name d reads =
      let bytes =
        saved_before name (codes "featureVector.txt") (codes "featureStore.txt") d.feature
          (dump_feature json d) s.files refl in
      let metadata =
        find-insert_self (feature_metadata_file name) (dump_feature json d)
          (insert (feature_file name) d.feature s.files) in
      let parsed = get_json-dump_feature d reads in
      elim (Bool-cases (ltb d.expiry now)) [
        | inl b ↦ simp (get_feature_data_from_device, metadata, bytes, parsed, b) refl
        | inr b ↦ simp (get_feature_data_from_device, metadata, bytes, parsed, b) refl
      ]
