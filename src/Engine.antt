-- ===== src/Engine.antt =====
-- What the JavaScript engine supplies and the sources only call: Unicode case mapping and trimming,
-- the collation of `localeCompare`, the reading of a date text, and UTF-16.
use virtual_office_sagara_ag.Prelude.{ℕ, String, ◌≡◌, ◌⊎◌, Bool, true, Option, List}

pub record Engine : Type 0 where
  pub trim : String → String
  pub to_upper_case : String → String
  pub to_lower_case : String → String
  -- `a.localeCompare(b) <= 0`
  pub locale_le : String → String → Bool
  -- `new Date(s).getTime()`: milliseconds counted from the earliest date that JavaScript has, so
  -- that they are natural numbers; `none` is NaN
  pub get_time : String → Option ℕ
  -- the UTF-16 code units that `charCodeAt` gives
  pub code_units : String → List ℕ

-- `localeCompare` is a total order on texts, up to canonical equivalence.
pub record HasLocaleOrder (js : Engine) : Type 0 where
  pub total : (a b : String) → (js.locale_le a b ≡ true) ⊎ (js.locale_le b a ≡ true)
  pub trans :
      (a b c : String) → js.locale_le a b ≡ true → js.locale_le b c ≡ true → js.locale_le a c ≡ true
