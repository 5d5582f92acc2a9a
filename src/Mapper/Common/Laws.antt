-- ===== src/Mapper/Common/Laws.antt =====
-- Laws of `mapUnknownEnum`.
use virtual_office_sagara_ag.Prelude.{
  String, ◌≡◌, ◌≢◌, refl, ◌⊎◌, inl, inr, Option, none, some, arith, ◌==◌, eq_iff, or_else,
  Option-cases, if_both,
}
use virtual_office_sagara_ag.Engine.{Engine}
use virtual_office_sagara_ag.Mapper.Common.{Spellings, spelled, map_unknown_enum}

module _ {ℓ} {T : Type ℓ} (allowed : Spellings T) where
  -- The value is spelled by a text of the table, or is the fallback.
  abbrev pub IsAllowed : T → T → Type ℓ
  IsAllowed fallback t = ((s : String) × (spelled allowed s ≡ some t)) ⊎ (t ≡ fallback)

  or_else-IsAllowed :
      (s : String) (d fallback : T)
      → IsAllowed fallback d
      → IsAllowed fallback (or_else (spelled allowed s) d)
  or_else-IsAllowed s d fallback h = elim (Option-cases (spelled allowed s)) [
    | inl e ↦ rw e h
    | inr (t, e) ↦ rw e (inl (s, e))
  ]

module _ {ℓ} {T : Type ℓ} (js : Engine) (allowed : Spellings T) (fallback : T) where
  -- Whatever text the backend sends, or none, the result is a value that a text of the table
  -- spells, or the fallback.
  map_unknown_enum-IsAllowed :
      (value : Option String)
      → IsAllowed allowed fallback (map_unknown_enum js value allowed fallback)
  unfolding map_unknown_enum
  map_unknown_enum-IsAllowed none = inr refl
  map_unknown_enum-IsAllowed (some value) =
      if_both (IsAllowed allowed fallback) (value == "") (inr refl)
        (or_else-IsAllowed allowed _ _ fallback (or_else-IsAllowed allowed _ _ fallback (inr refl)))

  -- A text that the table spells and that trimming and upper-casing leave alone is read back as its
  -- value.
  pub map_unknown_enum-spelled :
      (name : String) (t : T)
      → name ≢ ""
      → js.trim name ≡ name
      → js.to_upper_case name ≡ name
      → spelled allowed name ≡ some t
      → map_unknown_enum js (some name) allowed fallback ≡ t
  unfolding map_unknown_enum
  map_unknown_enum-spelled name t filled trimmed upper h =
      rw (trimmed, upper, h) (ground (arith, eq_iff name ""))
