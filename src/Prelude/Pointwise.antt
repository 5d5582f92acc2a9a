-- ===== src/Prelude/Pointwise.antt =====
-- Lists related element by element, and the update of the first element that passes a test.
use mathlib.Core.Path.{◌≡◌, refl}
use mathlib.Core.Logic.{◌⊎◌, inl, inr}
use mathlib.Core.Bool.{Bool, true, false}
use mathlib.Core.Option.{none, some}
use mathlib.Core.List.{List, [], ◌∷◌}
use native.Mathlib.Omega.{arith}
use virtual_office_sagara_ag.Prelude.Tests.{if◌then◌else◌}
use virtual_office_sagara_ag.Prelude.Arrays.{find, update_first}

-- Both lists have the same length, and `R` relates their elements in order.
abbrev pub Pointwise {ℓ} : {A : Type ℓ} → (A → A → Type 0) → List A → List A → Type 0
Pointwise R [] [] = Unit
Pointwise R [] (y ∷ ys) = ⊥
Pointwise R (x ∷ xs) [] = ⊥
Pointwise R (x ∷ xs) (y ∷ ys) = R x y × Pointwise R xs ys

module _ {ℓ} {A : Type ℓ} (R : A → A → Type 0) where
  pub Pointwise-refl : ((x : A) → R x x) → (xs : List A) → Pointwise R xs xs
  Pointwise-refl same [] = tt
  Pointwise-refl same (x ∷ xs) = (same x, Pointwise-refl same xs)

  pub Pointwise-trans :
      ((x y z : A) → R x y → R y z → R x z)
      → (xs ys zs : List A) → Pointwise R xs ys
      → Pointwise R ys zs
      → Pointwise R xs zs
  Pointwise-trans chain [] [] [] h k = tt
  Pointwise-trans chain [] [] (z ∷ zs) h k = k
  Pointwise-trans chain [] (y ∷ ys) zs h k = elim h [ ]
  Pointwise-trans chain (x ∷ xs) [] zs h k = elim h [ ]
  Pointwise-trans chain (x ∷ xs) (y ∷ ys) [] h k = k
  Pointwise-trans chain (x ∷ xs) (y ∷ ys) (z ∷ zs) h k =
      (chain x y z h.0 k.0, Pointwise-trans chain xs ys zs h.1 k.1)

  -- Only the element that is found has to be related to its update.
  pub Pointwise-update_first :
      ((x : A) → R x x)
      → (p : A → Bool) (f : A → A) (xs : List A) → ((x : A) → find p xs ≡ some x → R x (f x))
      → Pointwise R xs (update_first p f xs)
  Pointwise-update_first same p f [] h = tt
  Pointwise-update_first same p f (x ∷ xs) g =
      elim (p x)
          as (λ b.
            ((a : A) → (if b then some x else find p xs) ≡ some a → R a (f a))
            → Pointwise R (x ∷ xs) (if b then f x ∷ xs else x ∷ update_first p f xs)) [
              | true ↦ λ h. (h x refl, Pointwise-refl same xs)
              | false ↦ λ h. (same x, Pointwise-update_first same p f xs h)
            ]
        g

module _ {ℓ} {A : Type ℓ} where
  -- An update that keeps what two tests see is seen at the element found, and nowhere else.
  pub find-update_first :
      (p : A → Bool) (f : A → A)
      → ((x : A) → p (f x) ≡ p x)
      → (xs : List A)
      → find p (update_first p f xs) ≡ elim (find p xs) [ none ↦ none | some x ↦ some (f x) ]
  find-update_first p f keeps [] = refl
  find-update_first p f keeps (x ∷ xs) = ground (arith, keeps x, find-update_first p f keeps xs)

  pub find-update_first_ne :
      (p q : A → Bool) (f : A → A)
      → ((x : A) → p x ≡ true → q x ≡ false)
      → ((x : A) → q (f x) ≡ q x)
      → (xs : List A) → find q (update_first p f xs) ≡ find q xs
  find-update_first_ne p q f apart keeps [] = refl
  find-update_first_ne p q f apart keeps (x ∷ xs) =
      ground (arith, apart x, keeps x, find-update_first_ne p q f apart keeps xs)

  pub find_passes : (p : A → Bool) (xs : List A) (x : A) → find p xs ≡ some x → p x ≡ true
  find_passes p [] x h = cc
  find_passes p (y ∷ ys) x h = ground (arith, find_passes p ys x)

-- The second list is the first, each element related to what has become of it, behind new ones.
abbrev pub Kept {ℓ} : {A : Type ℓ} → (A → A → Type 0) → List A → List A → Type 0
Kept R xs [] = Pointwise R xs []
Kept R xs (y ∷ ys) = Pointwise R xs (y ∷ ys) ⊎ Kept R xs ys

module _ {ℓ} {A : Type ℓ} (R : A → A → Type 0) where
  pub Pointwise-Kept : (xs ys : List A) → Pointwise R xs ys → Kept R xs ys
  Pointwise-Kept xs [] h = h
  Pointwise-Kept xs (y ∷ ys) h = inl h

  module _ (chain : (x y z : A) → R x y → R y z → R x z) where
    Kept-Pointwise : (xs ys zs : List A) → Kept R xs ys → Pointwise R ys zs → Kept R xs zs
    Kept-Pointwise xs [] zs h k = Pointwise-Kept xs zs (Pointwise-trans R chain xs [] zs h k)
    Kept-Pointwise xs (y ∷ ys) [] h k = elim k [ ]
    Kept-Pointwise xs (y ∷ ys) (z ∷ zs) (inl h) k =
        inl (Pointwise-trans R chain xs (y ∷ ys) (z ∷ zs) h k)
    Kept-Pointwise xs (y ∷ ys) (z ∷ zs) (inr h) k = inr (Kept-Pointwise xs ys zs h k.1)

    pub Kept-trans : (xs ys zs : List A) → Kept R xs ys → Kept R ys zs → Kept R xs zs
    Kept-trans xs ys [] h k = Kept-Pointwise xs ys [] h k
    Kept-trans xs ys (z ∷ zs) h (inl k) = Kept-Pointwise xs ys (z ∷ zs) h k
    Kept-trans xs ys (z ∷ zs) h (inr k) = inr (Kept-trans xs ys zs h k)
