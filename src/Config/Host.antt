-- ===== src/Config/Host.antt =====
-- The slashes at the end of the host, and the configurations that are valid.
use nimble_sdk.Prelude.{
  ℕ, zero, suc, ◌+◌, ◌≡◌, ◌∙◌, refl, ap, false, none, some, [], ◌∷◌, ◌++◌, Text, length, replicate,
  length-append, length-replicate, ◌==◌, arith,
}
use mathlib.Core.List.{append_assoc, append-nil}
use native.Mathlib.Nat.{zero-add, suc-add}
use nimble_sdk.Config.{back, drop_back, strip_rounds, strip_slashes}

replicate-snoc : (k : ℕ) (c : ℕ) → replicate k c ++ c ∷ [] ≡ c ∷ replicate k c
replicate-snoc zero c = refl
replicate-snoc (suc k) c = ap (λ t. c ∷ t) (replicate-snoc k c)

back-snoc : (c : ℕ) (t : Text) (d : ℕ) → back c (t ++ d ∷ []) ≡ d
back-snoc c [] d = refl
back-snoc c (x ∷ t) d = back-snoc x t d

drop_back-snoc : (c : ℕ) (t : Text) (d : ℕ) → drop_back c (t ++ d ∷ []) ≡ c ∷ t
drop_back-snoc c [] d = refl
drop_back-snoc c (x ∷ t) d = ap (λ s. c ∷ s) (drop_back-snoc x t d)

-- A round takes one slash away.
strip-slash :
    (rounds : ℕ) (t : Text) → strip_rounds (suc rounds) (t ++ b'/' ∷ []) ≡ strip_rounds rounds t
unfolding strip_rounds
strip-slash rounds [] = refl
strip-slash rounds (c ∷ t) = rw (back-snoc c t b'/', drop_back-snoc c t b'/') refl

strip-slashes :
    (k rounds : ℕ) (t : Text)
    → strip_rounds (k + rounds) (t ++ replicate k b'/') ≡ strip_rounds rounds t
strip-slashes zero rounds t = simp (append-nil, zero-add) refl
strip-slashes (suc k) rounds t =
    let snoc : t ++ replicate (suc k) b'/' ≡ (t ++ replicate k b'/') ++ b'/' ∷ [] =
      rw (append_assoc t (replicate k b'/') (b'/' ∷ []), replicate-snoc k b'/') refl in
    rw (snoc, suc-add k rounds)
      (strip-slash (k + rounds) (t ++ replicate k b'/') ∙ strip-slashes k rounds t)

strip-stop :
    (rounds : ℕ) (t : Text) (c : ℕ)
    → (c == b'/') ≡ false
    → strip_rounds rounds (t ++ c ∷ []) ≡ some (t ++ c ∷ [])
unfolding strip_rounds
strip-stop zero [] c h = refl
strip-stop zero (x ∷ t) c h = refl
strip-stop (suc rounds) [] c h = rw h refl
strip-stop (suc rounds) (x ∷ t) c h = rw (back-snoc x t c, h) refl

-- The host loses all slashes at its end and nothing else; of a host that is nothing but slashes, or
-- empty, the code asks for the last character of an empty string, a fault.
pub strip_slashes_lem :
    (base : Text) (c k : ℕ)
    → (c == b'/') ≡ false
    → (strip_slashes ((base ++ c ∷ []) ++ replicate k b'/') ≡ some (base ++ c ∷ []))
      × (strip_slashes (replicate k b'/') ≡ none)
unfolding strip_slashes
strip_slashes_lem base c k h =
    let host = base ++ c ∷ [] in
    let l : length (host ++ replicate k b'/') ≡ k + length host =
      omega (arith, length-append {0} host (replicate k b'/'), length-replicate {A = ℕ} k b'/') in
    let slashes : Text = replicate k b'/' in
    let k' : length slashes ≡ k + 0 = omega (arith, length-replicate {A = ℕ} k b'/') in
    (
      rw l (strip-slashes k (length host) host ∙ strip-stop (length host) base c h),
      rw k' (strip-slashes k 0 []),
    )
