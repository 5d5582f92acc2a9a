-- ===== src/Office/Animation/Reals.antt =====
-- The floating-point numbers of the animation, with the operations that it uses on them. Nothing is
-- assumed of them: the theorems hold of doubles with their roundings.
use virtual_office_sagara_ag.Prelude.{ℕ, String, Bool}

pub record Reals : Type 1 where
  pub Real : Type 0
  -- the literal `n / d`
  pub literal : ℕ → ℕ → Real
  pub add : Real → Real → Real
  pub sub : Real → Real → Real
  pub mul : Real → Real → Real
  pub div : Real → Real → Real
  pub remainder : Real → Real → Real
  pub min : Real → Real → Real
  pub max : Real → Real → Real
  pub hypot : Real → Real → Real
  pub lt : Real → Real → Bool
  pub le : Real → Real → Bool
  -- `${Math.floor(x)}`
  pub floor_text : Real → String

pub record Position (reals : Reals) : Type 0 where
  pub x : reals.Real
  pub y : reals.Real

module _ (reals : Reals) where
  open reals use {Real, literal}

  -- a literal without a fraction
  abbrev pub whole : ℕ → Real
  whole n = literal n 1
