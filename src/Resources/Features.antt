-- ===== src/Resources/Features.antt =====
-- What the rounds of the background thread do for a feature whose version stays the same.
use nimble_sdk.Prelude.{
  ℕ, ◌+◌, ◌≤◌, ◌<◌, ◌≡◌, refl, true, inl, inr, Bool-cases, Option, some, ◌>>=◌, List, [], ◌∷◌, Text,
  eq_text, length, ltb, arith, All,
}
use nimble_sdk.Prelude.Map.{find, find-insert_self}
use nimble_sdk.Prelude.Int.{eq_ℤ}
use nimble_sdk.Status.{success}
use nimble_sdk.Json.{Json}
use nimble_sdk.Server.{
  Server, Network, FeatureVersionCheckResponse, get_feature_version, default_auth_error_retries,
}
use nimble_sdk.Server.Bounds.{get_with_retries-sent}
use nimble_sdk.FeatureStore.{FeatureStore, get_version, should_download, set_upto_date}
use nimble_sdk.Resources.{Resources, update_feature_if_required}

module _ (json : Json) (network : Network) where
  -- The rounds of the command center over one feature, each with its time.
  unfoldable pub update_feature_rounds :
      {U : Type 0} → List ℕ → Text → Resources U → Option (Resources U)
  update_feature_rounds [] name r = some r
  update_feature_rounds (now ∷ later) name r = do
    r' ← update_feature_if_required json network now r name
    update_feature_rounds later name r'

  -- What the server answers when it is asked for the version of a feature.
  abbrev pub version_of : Text → Server → FeatureVersionCheckResponse
  version_of name s = (get_feature_version json network default_auth_error_retries name s).1

  get_feature_version-sent :
      (name : Text) (s : Server)
      → length s.sent
        < length (get_feature_version json network default_auth_error_retries name s).0.sent
  unfolding get_feature_version
  get_feature_version-sent name s =
      (get_with_retries-sent json network default_auth_error_retries _ s).0

  module _ {U : Type 0} (name : Text)
      (answers : (s : Server) → eq_ℤ (version_of name s).status success ≡ true) where
    update_feature_expired :
        (now : ℕ) (r : Resources U) (f : FeatureStore)
        → find name r.features ≡ some f
        → ltb f.expiry now ≡ true
        → ((s : Server) → eq_text f.feature.version (version_of name s).version ≡ true)
        → (r' : Resources U) × (update_feature_if_required json network now r name ≡ some r')
          × (length r.server.sent < length r'.server.sent)
          × (find name r'.features ≡ some (record f { is_upto_date = true }))
    unfolding update_feature_if_required should_download set_upto_date get_version
    update_feature_expired now r f e old same =
        let (s, v) = get_feature_version json network default_auth_error_retries name r.server in
        let sent = get_feature_version-sent name r.server in
        let a = answers r.server in
        let b = same r.server in
        let self = find-insert_self name (record f { is_upto_date = true }) r.features in
        let checked = record r { server = s; features = set_upto_date r.features name } in
        let kept : find name checked.features ≡ some (record f { is_upto_date = true }) =
          rw (set_upto_date, e) self in
        let done : update_feature_if_required json network now r name ≡ some checked =
          elim (Bool-cases f.is_upto_date) [
            | inl u ↦
                simp (update_feature_if_required, should_download, get_version, e, u, old, a, b)
                  refl
            | inr u ↦
                simp (update_feature_if_required, should_download, get_version, e, u, old, a, b)
                  refl
          ] in
        (checked, done, sent, kept)

    -- As long as the server answers with the version that an expired feature has, every round asks
    -- it again: the requests grow with each round, and the feature keeps its bytes and its old
    -- expiry, though it counts as up to date.
    pub expired_feature_stays_expired :
        (now : ℕ) (later : List ℕ) (r : Resources U) (f : FeatureStore)
        → find name r.features ≡ some f
        → All (λ t. ltb f.expiry t ≡ true) (now ∷ later)
        → ((s : Server) → eq_text f.feature.version (version_of name s).version ≡ true)
        → (r' : Resources U) × (update_feature_rounds (now ∷ later) name r ≡ some r')
          × (length r.server.sent + length (now ∷ later) ≤ length r'.server.sent)
          × (find name r'.features ≡ some (record f { is_upto_date = true }))
    unfolding update_feature_rounds
    expired_feature_stays_expired now [] r f e old same =
        let (r', done, sent, kept) = update_feature_expired now r f e old.0 same in
        (r', rw done refl, omega (arith, sent), kept)
    expired_feature_stays_expired now (next ∷ later) r f e old same =
        let (r', done, sent, kept) = update_feature_expired now r f e old.0 same in
        let (r'', rest, more, end) =
          expired_feature_stays_expired next later r' (record f { is_upto_date = true }) kept old.1
            same in
        (r'', rw done rest, omega (arith, sent, more), end)
