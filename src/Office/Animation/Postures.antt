-- ===== src/Office/Animation/Postures.antt =====
-- frontend/src/features/office/animation/navigation.ts: postures, and the array operations of a motion.
use virtual_office_sagara_ag.Prelude.{
  ℕ, zero, suc, ◌-◌, Bool, true, false, not, List, [], ◌∷◌, if◌then◌else◌, length,
}

pub data CharacterPosture : Type 0 where
  seated stand_up standing walking sit_down : CharacterPosture

pub data CharacterOrientation : Type 0 where
  north_east north_west south_east south_west : CharacterOrientation

abbrev pub is_seated : CharacterPosture → Bool
is_seated CharacterPosture.seated = true
is_seated _ = false

abbrev pub is_sitting_down : CharacterPosture → Bool
is_sitting_down CharacterPosture.sit_down = true
is_sitting_down _ = false

abbrev pub is_standing_up : CharacterPosture → Bool
is_standing_up CharacterPosture.stand_up = true
is_standing_up _ = false

abbrev pub is_standing : CharacterPosture → Bool
is_standing CharacterPosture.standing = true
is_standing _ = false

-- `a === b` on flags
abbrev pub same_flag : Bool → Bool → Bool
same_flag true b = b
same_flag false b = not b

-- `!xs.length`
abbrev pub is_empty {ℓ} : {A : Type ℓ} → List A → Bool
is_empty [] = true
is_empty (x ∷ xs) = false

-- `xs.at(-1) ?? d`
abbrev pub last_or {ℓ} : {A : Type ℓ} → A → List A → A
last_or d [] = d
last_or d (x ∷ xs) = last_or x xs

-- `xs.slice(-n)`
abbrev pub drop_first {ℓ} : {A : Type ℓ} → ℕ → List A → List A
drop_first zero xs = xs
drop_first (suc n) [] = []
drop_first (suc n) (x ∷ xs) = drop_first n xs

abbrev pub last_few {ℓ} : {A : Type ℓ} → ℕ → List A → List A
last_few n xs = drop_first (length xs - n) xs

abbrev pub reverse_onto {ℓ} : {A : Type ℓ} → List A → List A → List A
reverse_onto [] ys = ys
reverse_onto (x ∷ xs) ys = reverse_onto xs (x ∷ ys)

-- `xs.filter((p, i, arr) => i === 0 || far(p, arr[i - 1]))`: the neighbours are those of `xs`
abbrev pub drop_close {ℓ} : {A : Type ℓ} → (A → A → Bool) → A → List A → List A
drop_close far before [] = []
drop_close far before (p ∷ rest) =
    let tail = drop_close far p rest in if far p before then p ∷ tail else tail
