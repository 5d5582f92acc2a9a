-- ===== src/Prelude/Texts.antt =====
-- Methods of JavaScript strings that the sources use, on the texts of the library.
use Prim.Native.Nat.{ℕ}
use Prim.Native.Char.{code}
use Prim.Native.String.{String, ◌++◌, find, len}
use mathlib.Core.Bool.{Bool, false, ◌&&◌}
use text.Mathlib.Text.{◌==◌}
use virtual_office_sagara_ag.Prelude.Tests.{if◌then◌else◌, ltb, leb, eqb}
use virtual_office_sagara_ag.Prelude.NumberText.{number_text}

-- `s.includes(t)`
abbrev pub text_includes : String → String → Bool
text_includes s t = leb (find s t) (len s)

-- `s.startsWith('/')`
unfoldable pub starts_with_slash : String → Bool
starts_with_slash String.[] = false
starts_with_slash (String.◌∷◌ c s) = eqb (code c) b'/'

-- `s.replace(/\/+$/, '')`
unfoldable pub strip_slashes : String → String
strip_slashes String.[] = ""
strip_slashes (String.◌∷◌ c s) =
    let rest = strip_slashes s in if rest == "" && eqb (code c) b'/' then "" else String.◌∷◌ c rest

-- `String(n).padStart(2, '0')`
unfoldable pub padded_number : ℕ → String
padded_number n = if ltb n 10 then "0" ++ number_text n else number_text n
