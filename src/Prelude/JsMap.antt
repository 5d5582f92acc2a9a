-- ===== src/Prelude/JsMap.antt =====
-- `Map<string, V>`: entries with distinct keys in the order of their first insertion.
pub mod Keyed
use Prim.Native.String.{String}
use mathlib.Core.Path.{◌≡◌, refl, ap}
use mathlib.Core.Logic.{◌≢◌}
use mathlib.Core.Bool.{Bool, true, false, ◌||◌, ◌&&◌, not}
use mathlib.Core.List.{List, [], ◌∷◌, ◌++◌, map}
use mathlib.Core.Option.{Option, none, some}
use native.Mathlib.Omega.{arith}
use text.Mathlib.Text.{◌==◌}
use text.Mathlib.TextEquality.{eq_iff}
use virtual_office_sagara_ag.Prelude.Tests.{if◌then◌else◌}
use virtual_office_sagara_ag.Prelude.Arrays.{includes}
use virtual_office_sagara_ag.Prelude.JsSet.{IsDistinct}

abbrev pub Map {ℓ} : Type ℓ → Type ℓ
Map V = List (String × V)

module _ {ℓ} {V : Type ℓ} where
  -- `map.get(k)`
  unfoldable pub get : Map V → String → Option V
  get [] k = none
  get ((j, v) ∷ m) k = if j == k then some v else get m k

  -- `map.set(k, v)`: a key that is there keeps its place.
  unfoldable pub set : Map V → String → V → Map V
  set [] k v = (k, v) ∷ []
  set ((j, w) ∷ m) k v = if j == k then (j, v) ∷ m else (j, w) ∷ set m k v

  -- `map.delete(k)`
  unfoldable pub delete : Map V → String → Map V
  delete [] k = []
  delete ((j, v) ∷ m) k = if j == k then delete m k else (j, v) ∷ delete m k

  abbrev pub keys : Map V → List String
  keys [] = []
  keys ((j, v) ∷ m) = j ∷ keys m

  -- `Array.from(map.values())`
  abbrev pub values : Map V → List V
  values [] = []
  values ((j, v) ∷ m) = v ∷ values m

module _ {ℓ} {V : Type ℓ} where
  pub get-set :
      (m : Map V) (k : String) (v : V) (j : String)
      → get (set m k v) j ≡ (if k == j then some v else get m j)
  unfolding get set
  get-set [] k v j = refl
  get-set ((i, w) ∷ m) k v j = ground (arith, get-set m k v j, eq_iff i k, eq_iff i j, eq_iff k j)

  pub get-delete :
      (m : Map V) (k j : String) → get (delete m k) j ≡ (if k == j then none else get m j)
  unfolding get delete
  get-delete [] k j = ground arith
  get-delete ((i, w) ∷ m) k j = ground (arith, get-delete m k j, eq_iff i k, eq_iff i j, eq_iff k j)

  pub includes-keys-set :
      (m : Map V) (k : String) (v : V) (j : String)
      → includes (keys (set m k v)) j ≡ (k == j || includes (keys m) j)
  unfolding set
  includes-keys-set [] k v j = ground arith
  includes-keys-set ((i, w) ∷ m) k v j =
      ground (arith, includes-keys-set m k v j, eq_iff i k, eq_iff i j, eq_iff k j)

  pub includes-keys-delete :
      (m : Map V) (k j : String)
      → includes (keys (delete m k)) j ≡ (not (k == j) && includes (keys m) j)
  unfolding delete
  includes-keys-delete [] k j = ground arith
  includes-keys-delete ((i, w) ∷ m) k j =
      ground (arith, includes-keys-delete m k j, eq_iff i k, eq_iff i j, eq_iff k j)

  pub set-IsDistinct :
      (m : Map V) (k : String) (v : V) → IsDistinct (keys m) → IsDistinct (keys (set m k v))
  unfolding set
  set-IsDistinct [] k v d = (refl, tt)
  set-IsDistinct ((i, w) ∷ m) k v d =
      ground (arith, set-IsDistinct m k v d.1, includes-keys-set m k v i, eq_iff i k, eq_iff k i)

  pub delete-IsDistinct :
      (m : Map V) (k : String) → IsDistinct (keys m) → IsDistinct (keys (delete m k))
  unfolding delete
  delete-IsDistinct [] k d = tt
  delete-IsDistinct ((i, w) ∷ m) k d =
      ground (arith, delete-IsDistinct m k d.1, includes-keys-delete m k i)
