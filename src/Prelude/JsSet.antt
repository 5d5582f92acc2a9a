-- ===== src/Prelude/JsSet.antt =====
-- `Set<string>`: the distinct members in the order of their first insertion.
use Prim.Native.String.{String}
use mathlib.Core.Path.{◌≡◌, refl}
use mathlib.Core.Bool.{false, ◌||◌, ◌&&◌, not}
use mathlib.Core.List.{List, [], ◌∷◌, ◌++◌}
use native.Mathlib.Omega.{arith}
use text.Mathlib.Text.{◌==◌}
use text.Mathlib.TextEquality.{eq_iff}
use virtual_office_sagara_ag.Prelude.Tests.{if◌then◌else◌}
use virtual_office_sagara_ag.Prelude.Arrays.{filter, includes}

-- `set.add(s)`: a member that is there keeps its place.
unfoldable pub add : List String → String → List String
add set s = if includes set s then set else set ++ s ∷ []

-- `set.delete(s)`
unfoldable pub delete : List String → String → List String
delete set s = filter (λ x. not (x == s)) set

-- `new Set(xs)`, from the members that are there already
unfoldable pub add_all : List String → List String → List String
add_all set [] = set
add_all set (x ∷ xs) = add_all (add set x) xs

abbrev pub of_array : List String → List String
of_array xs = add_all [] xs

-- No member stands twice.
abbrev pub IsDistinct : List String → Type 0
IsDistinct [] = Unit
IsDistinct (x ∷ xs) = (includes xs x ≡ false) × IsDistinct xs

pub includes-append :
    (xs ys : List String) (s : String) → includes (xs ++ ys) s ≡ (includes xs s || includes ys s)
includes-append [] ys s = refl
includes-append (x ∷ xs) ys s = ground (arith, includes-append xs ys s)

pub includes-filter_ne :
    (xs : List String) (s t : String)
    → includes (filter (λ x. not (x == t)) xs) s ≡ (not (t == s) && includes xs s)
includes-filter_ne [] s t = ground arith
includes-filter_ne (x ∷ xs) s t =
    ground (arith, includes-filter_ne xs s t, eq_iff x s, eq_iff x t, eq_iff t s)

pub includes-add :
    (set : List String) (s t : String) → includes (add set s) t ≡ (s == t || includes set t)
unfolding add
includes-add set s t = ground (arith, includes-append set (s ∷ []) t, eq_iff s t)

pub includes-delete :
    (set : List String) (s t : String)
    → includes (delete set s) t ≡ (not (s == t) && includes set t)
unfolding delete
includes-delete set s t = includes-filter_ne set t s

pub includes-add_all :
    (set xs : List String) (t : String)
    → includes (add_all set xs) t ≡ (includes set t || includes xs t)
unfolding add_all
includes-add_all set [] t = ground arith
includes-add_all set (x ∷ xs) t =
    ground (arith, includes-add_all (add set x) xs t, includes-add set x t)

IsDistinct-append_one :
    (xs : List String) (s : String)
    → includes xs s ≡ false
    → IsDistinct xs
    → IsDistinct (xs ++ s ∷ [])
IsDistinct-append_one [] s h d = (refl, tt)
IsDistinct-append_one (x ∷ xs) s h d = (
  ground (arith, includes-append xs (s ∷ []) x, eq_iff x s, eq_iff s x),
  IsDistinct-append_one xs s (ground arith) d.1,
)

pub add-IsDistinct : (set : List String) (s : String) → IsDistinct set → IsDistinct (add set s)
unfolding add
add-IsDistinct set s d = ground (arith, IsDistinct-append_one set s)

pub delete-IsDistinct :
    (set : List String) (s : String) → IsDistinct set → IsDistinct (delete set s)
unfolding delete
delete-IsDistinct [] s d = tt
delete-IsDistinct (x ∷ xs) s d =
    ground (arith, delete-IsDistinct xs s d.1, includes-filter_ne xs x s)

pub add_all-IsDistinct : (set xs : List String) → IsDistinct set → IsDistinct (add_all set xs)
unfolding add_all
add_all-IsDistinct set [] d = d
add_all-IsDistinct set (x ∷ xs) d = add_all-IsDistinct (add set x) xs (add-IsDistinct set x d)
