-- ===== src/Prelude/JsMap/Keyed.antt =====
-- Maps of records under a text of their own, filled by a loop over an array.
use Prim.Native.String.{String}
use mathlib.Core.Path.{◌≡◌, refl}
use mathlib.Core.List.{List, [], ◌∷◌}
use mathlib.Core.Option.{Option, none, some}
use native.Mathlib.Omega.{arith}
use text.Mathlib.Text.{◌==◌}
use text.Mathlib.TextEquality.{eq_iff}
use virtual_office_sagara_ag.Prelude.Tests.{if◌then◌else◌, or_some}
use virtual_office_sagara_ag.Prelude.Arrays.{find, includes}
use virtual_office_sagara_ag.Prelude.JsSet.{IsDistinct}
use virtual_office_sagara_ag.Prelude.JsMap.{
  Map, get, set, delete, keys, values, get-set, get-delete, set-IsDistinct, delete-IsDistinct,
}

-- `for (const k of ks) map.delete(k)`
unfoldable pub delete_each {ℓ} : {V : Type ℓ} → List String → Map V → Map V
delete_each [] m = m
delete_each (k ∷ ks) m = delete_each ks (delete m k)

pub get-delete_each {ℓ} :
    {V : Type ℓ} (ks : List String) (m : Map V) (j : String)
    → get (delete_each ks m) j ≡ (if includes ks j then none else get m j)
unfolding delete_each
get-delete_each [] m j = refl
get-delete_each (k ∷ ks) m j = ground (arith, get-delete_each ks (delete m k) j, get-delete m k j)

pub delete_each-IsDistinct {ℓ} :
    {V : Type ℓ} (ks : List String) (m : Map V)
    → IsDistinct (keys m)
    → IsDistinct (keys (delete_each ks m))
unfolding delete_each
delete_each-IsDistinct [] m d = d
delete_each-IsDistinct (k ∷ ks) m d =
    delete_each-IsDistinct ks (delete m k) (delete-IsDistinct m k d)

module _ {ℓ} {V : Type ℓ} (key : V → String) where
  -- `for (const v of vs) map.set(key(v), v)`
  unfoldable pub set_each : List V → Map V → Map V
  set_each [] m = m
  set_each (v ∷ vs) m = set_each vs (set m (key v) v)

  -- The value of a key in an array, as `find` returns it.
  abbrev pub find_key : List V → String → Option V
  find_key vs k = find (λ v. key v == k) vs

  -- The last value of a key in an array.
  unfoldable pub last_key : List V → String → Option V
  last_key [] k = none
  last_key (v ∷ vs) k = or_some (last_key vs k) (if key v == k then some v else none)

  -- Every entry stands under the key of its value.
  abbrev pub IsKeyed : Map V → Type 0
  IsKeyed [] = Unit
  IsKeyed ((k, v) ∷ m) = (k ≡ key v) × IsKeyed m

  -- The keys of an array of records.
  abbrev pub keys_of : List V → List String
  keys_of [] = []
  keys_of (v ∷ vs) = key v ∷ keys_of vs

  pub get-set_each :
      (vs : List V) (m : Map V) (k : String)
      → get (set_each vs m) k ≡ or_some (last_key vs k) (get m k)
  unfolding set_each last_key
  get-set_each [] m k = refl
  get-set_each (v ∷ vs) m k =
      ground (arith, get-set_each vs (set m (key v) v) k, get-set m (key v) v k)

  set-IsKeyed : (m : Map V) (v : V) → IsKeyed m → IsKeyed (set m (key v) v)
  unfolding set
  set-IsKeyed [] v h = (refl, tt)
  set-IsKeyed ((k, w) ∷ m) v h = ground (arith, set-IsKeyed m v h.1, eq_iff k (key v))

  pub set_each-IsKeyed : (vs : List V) (m : Map V) → IsKeyed m → IsKeyed (set_each vs m)
  unfolding set_each
  set_each-IsKeyed [] m h = h
  set_each-IsKeyed (v ∷ vs) m h = set_each-IsKeyed vs (set m (key v) v) (set-IsKeyed m v h)

  pub delete-IsKeyed : (m : Map V) (k : String) → IsKeyed m → IsKeyed (delete m k)
  unfolding delete
  delete-IsKeyed [] k h = tt
  delete-IsKeyed ((j, w) ∷ m) k h = ground (arith, delete-IsKeyed m k h.1)

  pub delete_each-IsKeyed : (ks : List String) (m : Map V) → IsKeyed m → IsKeyed (delete_each ks m)
  unfolding delete_each
  delete_each-IsKeyed [] m h = h
  delete_each-IsKeyed (k ∷ ks) m h = delete_each-IsKeyed ks (delete m k) (delete-IsKeyed m k h)

  pub set_each-IsDistinct :
      (vs : List V) (m : Map V) → IsDistinct (keys m) → IsDistinct (keys (set_each vs m))
  unfolding set_each
  set_each-IsDistinct [] m d = d
  set_each-IsDistinct (v ∷ vs) m d =
      set_each-IsDistinct vs (set m (key v) v) (set-IsDistinct m (key v) v d)

  pub find-values : (m : Map V) (k : String) → IsKeyed m → find_key (values m) k ≡ get m k
  unfolding get
  find-values [] k h = refl
  find-values ((j, v) ∷ m) k h = ground (arith, find-values m k h.1)

  pub keys-values : (m : Map V) → IsKeyed m → keys_of (values m) ≡ keys m
  keys-values [] h = refl
  keys-values ((j, v) ∷ m) h = ground (arith, keys-values m h.1)
