-- ===== src/Executor/Manager/Retries.antt =====
-- The retry counters of ONNXExecutor.
use nimble_sdk.Prelude.{
  ℕ, zero, suc, ◌<◌, ◌≡◌, refl, ◌⊎◌, inl, inr, true, false, not, none, some, Text, Bool-cases,
  Option-cases, arith,
}
use nimble_sdk.Prelude.Map.{find, insert, find-insert_self}
use nimble_sdk.Prelude.Int.{ℤ, pos, negsuc, leb_ℤ}
use nimble_sdk.Executor.Manager.{
  OnnxExecutor, check_plan_loaded, update_model_retries, updated_flag, retries_left,
  can_model_retry,
}

-- The number of loads that the counter of a model still allows.
abbrev pub allowance : ℤ → ℕ
allowance (pos n) = n
allowance (negsuc n) = 0

unfoldable pub retries_of : OnnxExecutor → Text → ℕ
retries_of x model_id = elim (find model_id x.load_model_retries) [
  | none ↦ 0
  | some n ↦ allowance n
]

pub retries_left-positive :
    (x : OnnxExecutor) (model_id : Text)
    → retries_left x model_id ≡ true
    → 0 < retries_of x model_id
unfolding retries_left retries_of
retries_left-positive x model_id h = elim (Option-cases (find model_id x.load_model_retries)) [
  | inl n ↦ let r : retries_left x model_id ≡ false = rw (retries_left, n) refl in cc
  | inr (pos k, n) ↦
      let r : retries_left x model_id ≡ not (leb_ℤ (pos k) (pos 0)) = rw (retries_left, n) refl in
      rw (retries_of, n) (ground (arith, h, r))
  | inr (negsuc k, n) ↦ let r : retries_left x model_id ≡ false = rw (retries_left, n) refl in cc
]

-- can_model_retry changes no counter, and allows a load only while the counter is positive.
pub can_model_retry-retries :
    (x : OnnxExecutor) (model_id : Text)
    → ((can_model_retry x model_id).0.load_model_retries ≡ x.load_model_retries)
      × ((can_model_retry x model_id).1 ≡ true → 0 < retries_of x model_id)
unfolding can_model_retry updated_flag retries_of
can_model_retry-retries x model_id = elim (Bool-cases (check_plan_loaded x model_id)) [
  | inr c ↦ rw (can_model_retry, c) (refl, retries_left-positive x model_id)
  | inl c ↦ elim (Option-cases (find model_id x.is_model_updated)) [
    | inl n ↦
        let x' = record x { is_model_updated = insert model_id false x.is_model_updated } in
        rw (can_model_retry, c, updated_flag, n) (refl, retries_left-positive x' model_id)
    | inr (true, n) ↦ rw (can_model_retry, c, updated_flag, n) (refl, λ h. cc)
    | inr (false, n) ↦
        rw (can_model_retry, c, updated_flag, n) (refl, retries_left-positive x model_id)
  ]
]

-- A load that is counted takes one from the allowance, down to 0.
pub update_model_retries-retries :
    (x : OnnxExecutor) (model_id : Text)
    → (suc (retries_of (update_model_retries x model_id) model_id) ≡ retries_of x model_id)
      ⊎ (retries_of x model_id ≡ 0)
unfolding update_model_retries retries_of
update_model_retries-retries x model_id = elim (Option-cases (find model_id x.load_model_retries)) [
  | inl n ↦ inr (rw (retries_of, n) refl)
  | inr (negsuc k, n) ↦ inr (rw (retries_of, n) refl)
  | inr (pos zero, n) ↦ inr (rw (retries_of, n) refl)
  | inr (pos (suc k), n) ↦
      let kept = find-insert_self model_id (pos k) x.load_model_retries in
      inl (rw (update_model_retries, n, retries_of, kept) refl)
]
