-- ===== src/Prelude/Tests.antt =====
-- Tests on native numbers, the conditional, case splits, and the truthiness and `??` of JavaScript.
use Prim.Native.Nat.{ℕ, compare, Ordering}
use Prim.Native.String.{String}
use mathlib.Core.Path.{◌≡◌, refl}
use mathlib.Core.Logic.{◌≢◌, ◌⊎◌, inl, inr}
use mathlib.Core.Bool.{Bool, true, false, not}
use mathlib.Core.Option.{Option, none, some}
use native.Mathlib.Omega.{arith}
use text.Mathlib.Text.{◌==◌}
use text.Mathlib.TextEquality.{eq_iff}

abbrev pub ltb : ℕ → ℕ → Bool
ltb a b = elim (compare a b) [ Ordering.lt ↦ true | _ ↦ false ]

abbrev pub leb : ℕ → ℕ → Bool
leb a b = elim (compare a b) [ Ordering.gt ↦ false | _ ↦ true ]

abbrev pub eqb : ℕ → ℕ → Bool
eqb a b = elim (compare a b) [ Ordering.eq ↦ true | _ ↦ false ]

infix 1 if◌then◌else◌
abbrev pub if◌then◌else◌ {ℓ} : {A : Type ℓ} → Bool → A → A → A
if true then x else y = x
if false then x else y = y

pub Bool-cases : (b : Bool) → (b ≡ true) ⊎ (b ≡ false)
Bool-cases true = inl refl
Bool-cases false = inr refl

pub Option-cases {ℓ} : {A : Type ℓ} (o : Option A) → (o ≡ none) ⊎ ((a : A) × (o ≡ some a))
Option-cases none = inl refl
Option-cases (some a) = inr (a, refl)

pub eq→true : (s t : String) → s ≡ t → (s == t) ≡ true
eq→true s t h = (eq_iff s t).1 h

pub true→eq : (s t : String) → (s == t) ≡ true → s ≡ t
true→eq s t h = (eq_iff s t).0 h

pub ne→false : (s t : String) → s ≢ t → (s == t) ≡ false
ne→false s t h = ground (arith, eq_iff s t)

pub false→ne : (s t : String) → (s == t) ≡ false → s ≢ t
false→ne s t h e = cc (h, (eq_iff s t).1 e)

-- `a ?? b`, where `none` stands for `null` and `undefined`.
abbrev pub or_else {ℓ} : {A : Type ℓ} → Option A → A → A
or_else none b = b
or_else (some a) b = a

-- `a || b` on an optional text: the empty text is falsy too.
abbrev pub or_text : Option String → String → String
or_text none b = b
or_text (some a) b = if a == "" then b else a

-- `Boolean(a)` of an optional text.
abbrev pub truthy : Option String → Bool
truthy none = false
truthy (some a) = not (a == "")

-- `a === b` where `a` may be `undefined`.
abbrev pub is_text : Option String → String → Bool
is_text none b = false
is_text (some a) b = a == b

-- The first of two optional values.
abbrev pub or_some {ℓ} : {A : Type ℓ} → Option A → Option A → Option A
or_some none b = b
or_some (some a) b = some a

-- What holds of both cases of an optional value holds of the match.
pub match_both {ℓ κ μ} :
    {A : Type ℓ} {B : Type κ} (P : B → Type μ) (o : Option A) {d : B} {f : A → B}
    → (o ≡ none → P d)
    → ((a : A) → o ≡ some a → P (f a))
    → P (elim o [ none ↦ d | some a ↦ f a ])
match_both P none hd hf = hd refl
match_both P (some a) hd hf = hf a refl

-- The same for a test, with its outcome; then where the outcome does not matter.
module _ {ℓ κ} {A : Type ℓ} (P : A → Type κ) (test : Bool) {x y : A} where
  pub if_cases : (test ≡ true → P x) → (test ≡ false → P y) → P (if test then x else y)
  if_cases on_true on_false =
      elim test as (λ b. test ≡ b → P (if b then x else y)) [ true ↦ on_true | false ↦ on_false ]
        refl

  pub if_both : P x → P y → P (if test then x else y)
  if_both on_true on_false = if_cases (λ _. on_true) (λ _. on_false)
