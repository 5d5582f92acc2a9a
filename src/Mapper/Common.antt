-- ===== src/Mapper/Common.antt =====
-- frontend/src/api/mappers/common.mapper.ts
pub mod Laws
use virtual_office_sagara_ag.Prelude.{
  ℕ, String, Bool, true, false, ◌||◌, Option, none, some, List, [], ◌∷◌, map, ◌==◌, if◌then◌else◌,
  or_else,
}
use virtual_office_sagara_ag.Engine.{Engine}

-- A union of string literals: each value with its spelling.
abbrev pub Spellings {ℓ} : Type ℓ → Type ℓ
Spellings T = List (String × T)

-- `allowed.includes(s)`, with the value that `s` spells
unfoldable pub spelled {ℓ} : {T : Type ℓ} → Spellings T → String → Option T
spelled [] s = none
spelled ((name, t) ∷ rest) s = if name == s then some t else spelled rest s

module _ {ℓ} {T : Type ℓ} (js : Engine) where
  -- `mapUnknownEnum`
  unfoldable pub map_unknown_enum : Option String → Spellings T → T → T
  map_unknown_enum none allowed fallback = fallback
  map_unknown_enum (some value) allowed fallback =
      if value == ""
      then fallback
      else or_else (spelled allowed (js.to_upper_case (js.trim value)))
          (or_else (spelled allowed (js.trim value)) fallback)

-- A JavaScript number as the mappers see it: a finite one, or NaN and the infinities.
pub data Number : Type 0 where
  finite : ℕ → Number
  not_finite : Number

-- `preserveNumber`
unfoldable pub preserve_number : Option Number → Option ℕ
preserve_number none = none
preserve_number (some (finite n)) = some n
preserve_number (some not_finite) = none

pub record PageInfoDto : Type 0 where
  pub next_cursor : Option String
  pub has_more : Option Bool
  pub total_count : Option Number

pub record PageResultDto {ℓ} (T : Type ℓ) : Type ℓ where
  pub items : Option (List T)
  pub page_info : Option PageInfoDto

pub record PageInfo : Type 0 where
  pub next_cursor : Option String
  pub has_more : Bool
  pub total_count : Option ℕ

pub record PageResult {ℓ} (T : Type ℓ) : Type ℓ where
  pub items : List T
  pub page_info : PageInfo

map_page_info : Option PageInfoDto → PageInfo
unfolding preserve_number
map_page_info none = record { next_cursor = none; has_more = false; total_count = none }
map_page_info (some info) = record {
  next_cursor = info.next_cursor;
  has_more = or_else info.has_more false;
  total_count = preserve_number info.total_count;
}

-- `mapPageResult`
unfoldable pub map_page_result {ℓ κ} :
    {D : Type ℓ} {T : Type κ} → PageResultDto D → (D → T) → PageResult T
unfolding map_page_info
map_page_result dto item_mapper = record {
  items = map item_mapper (or_else dto.items []);
  page_info = map_page_info dto.page_info;
}
