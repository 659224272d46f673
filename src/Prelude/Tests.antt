-- ===== src/Prelude/Tests.antt =====
-- Boolean tests on the native numbers, the conditional, and the monad of computations that may
-- fault: `none` is undefined behaviour, such as a read past the end of a vector.
use Prim.Native.Nat.{ℕ, ◌≤◌, ◌<◌, compare, Ordering}
use mathlib.Core.Path.{◌≡◌, refl}
use mathlib.Core.Logic.{◌↔◌, ◌⊎◌, inl, inr}
use mathlib.Core.Bool.{Bool, true, false}
use mathlib.Core.Option.{Option, none, some}
use native.Mathlib.Omega.{arith}

abbrev pub ltb : ℕ → ℕ → Bool
ltb a b = elim (compare a b) [ Ordering.lt ↦ true | _ ↦ false ]

abbrev pub leb : ℕ → ℕ → Bool
leb a b = elim (compare a b) [ Ordering.gt ↦ false | _ ↦ true ]

infix 50 ◌==◌
abbrev pub ◌==◌ : ℕ → ℕ → Bool
a == b = elim (compare a b) [ Ordering.eq ↦ true | _ ↦ false ]

infix 1 if◌then◌else◌
abbrev pub if◌then◌else◌ {ℓ} : {A : Type ℓ} → Bool → A → A → A
if true then x else y = x
if false then x else y = y

pub ltb→lt : (a b : ℕ) → ltb a b ≡ true → a < b
ltb→lt a b h = ground arith

pub lt→ltb : (a b : ℕ) → a < b → ltb a b ≡ true
lt→ltb a b h = ground arith

pub le→ltb_false : (a b : ℕ) → b ≤ a → ltb a b ≡ false
le→ltb_false a b h = ground arith

pub ==_iff : (a b : ℕ) → ((a == b) ≡ true) ↔ (a ≡ b)
==_iff a b = ground arith

pub Bool-cases : (b : Bool) → (b ≡ true) ⊎ (b ≡ false)
Bool-cases true = inl refl
Bool-cases false = inr refl

pub Option-cases {ℓ} : {A : Type ℓ} (o : Option A) → (o ≡ none) ⊎ ((a : A) × (o ≡ some a))
Option-cases none = inl refl
Option-cases (some a) = inr (a, refl)

infixl 5 ◌>>=◌
abbrev pub ◌>>=◌ {ℓ κ} : {A : Type ℓ} {B : Type κ} → Option A → (A → Option B) → Option B
some a >>= f = f a
none >>= f = none

pub >>=-eq-some {ℓ κ} :
    {A : Type ℓ} {B : Type κ} (m : Option A) (f : A → Option B) {b : B}
    → (m >>= f) ≡ some b
    → (a : A) × (m ≡ some a) × (f a ≡ some b)
>>=-eq-some (some a) f h = (a, refl, h)
>>=-eq-some none f h = cc

-- A property of the result, if there is no fault.
abbrev pub IfSome {ℓ} : {A : Type ℓ} → (A → Type 0) → Option A → Type 0
IfSome P none = Unit
IfSome P (some a) = P a

pub IfSome->>= {ℓ κ} :
    {A : Type ℓ} {B : Type κ} (P : A → Type 0) (Q : B → Type 0) (m : Option A) (f : A → Option B)
    → IfSome P m
    → ((a : A) → P a → IfSome Q (f a))
    → IfSome Q (m >>= f)
IfSome->>= P Q none f h g = tt
IfSome->>= P Q (some a) f h g = g a h

pub IfSome-any {ℓ} : {A : Type ℓ} (m : Option A) → IfSome (λ a. Unit) m
IfSome-any none = tt
IfSome-any (some a) = tt

-- A property of the result of a chain, a test and a choice follows from that of their ends.
pub IfSome-bind {ℓ κ} :
    {A : Type ℓ} {B : Type κ} (Q : B → Type 0) (m : Option A) (f : A → Option B)
    → ((a : A) → IfSome Q (f a))
    → IfSome Q (m >>= f)
IfSome-bind Q m f h = IfSome->>= (λ a. Unit) Q m f (IfSome-any m) (λ a t. h a)

pub IfSome-if {κ} :
    {B : Type κ} (Q : B → Type 0) (b : Bool) (x y : Option B)
    → IfSome Q x
    → IfSome Q y
    → IfSome Q (if b then x else y)
IfSome-if Q true x y h k = h
IfSome-if Q false x y h k = k

pub IfSome-choice {ℓ κ} :
    {A : Type ℓ} {B : Type κ} (Q : B → Type 0) (m : Option A) (x : Option B) (f : A → Option B)
    → IfSome Q x
    → ((a : A) → IfSome Q (f a))
    → IfSome Q (elim m [ none ↦ x | some a ↦ f a ])
IfSome-choice Q none x f h k = h
IfSome-choice Q (some a) x f h k = k a

pub IfSome-else {κ} :
    {B : Type κ} (Q : B → Type 0) (b : Bool) (x y : Option B)
    → b ≡ false
    → IfSome Q y
    → IfSome Q (if b then x else y)
IfSome-else Q b x y e h = rw e h

pub IfSome-cases {κ} :
    {B : Type κ} (Q : B → Type 0) (b : Bool) (x y : Option B)
    → (b ≡ true → IfSome Q x)
    → (b ≡ false → IfSome Q y)
    → IfSome Q (if b then x else y)
IfSome-cases Q true x y h k = h refl
IfSome-cases Q false x y h k = k refl

pub IfSome-some {ℓ} :
    {A : Type ℓ} (P : A → Type 0) (m : Option A) (a : A) → m ≡ some a → IfSome P m → P a
IfSome-some P m a e h = rw e at h

-- A bind whose rest is reached only with what was found.
pub IfSome-found {ℓ κ} :
    {A : Type ℓ} {B : Type κ} (Q : B → Type 0) (m : Option A) (f : A → Option B)
    → ((a : A) → m ≡ some a → IfSome Q (f a))
    → IfSome Q (m >>= f)
IfSome-found Q none f h = tt
IfSome-found Q (some a) f h = h a refl
