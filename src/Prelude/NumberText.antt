-- ===== src/Prelude/NumberText.antt =====
-- The decimal text of a number, as a template literal `${n}` writes it.
use Prim.Native.Nat.{ℕ, zero, suc, ◌/◌, ◌%◌}
use Prim.Native.String.{String, ◌++◌}
use mathlib.Core.Path.{◌≡◌, refl}
use virtual_office_sagara_ag.Prelude.Tests.{if◌then◌else◌, ltb, eqb}

digit : ℕ → String
digit d =
    if eqb d 0
    then "0"
    else if eqb d 1
    then "1"
    else if eqb d 2
    then "2"
    else if eqb d 3
    then "3"
    else if eqb d 4
    then "4"
    else if eqb d 5
    then "5"
    else if eqb d 6
    then "6"
    else if eqb d 7
    then "7"
    else if eqb d 8
    then "8"
    else "9"

-- The digits of a number below 10 ^ fuel.
decimal : ℕ → ℕ → String
decimal zero n = ""
decimal (suc fuel) n =
    let front = decimal fuel (n / 10) in if ltb n 10 then digit n else front ++ digit (n % 10)

-- A number has no more digits than its successor counts.
unfoldable pub number_text : ℕ → String
unfolding digit decimal
number_text n = decimal (suc n) n

number_text_test : number_text 1205 ≡ "1205"
unfolding number_text
number_text_test = refl
