-- ===== src/Prelude/Sort/Keyed.antt =====
-- Sorting records with distinct keys changes no lookup by key.
use Prim.Native.String.{String}
use mathlib.Core.Path.{◌≡◌, refl}
use mathlib.Core.Bool.{Bool, ◌||◌}
use mathlib.Core.List.{List, [], ◌∷◌}
use native.Mathlib.Omega.{arith}
use text.Mathlib.Text.{◌==◌}
use text.Mathlib.TextEquality.{eq_iff}
use virtual_office_sagara_ag.Prelude.Arrays.{includes}
use virtual_office_sagara_ag.Prelude.JsSet.{IsDistinct}
use virtual_office_sagara_ag.Prelude.JsMap.Keyed.{find_key, keys_of}
use virtual_office_sagara_ag.Prelude.Sort.{insert, sort}

module _ {ℓ} {V : Type ℓ} (key : V → String) (le : V → V → Bool) where
  includes-keys_of-insert :
      (v : V) (vs : List V) (k : String)
      → includes (keys_of key (insert le v vs)) k ≡ (key v == k || includes (keys_of key vs) k)
  unfolding insert
  includes-keys_of-insert v [] k = refl
  includes-keys_of-insert v (w ∷ ws) k = ground (arith, includes-keys_of-insert v ws k)

  insert-IsDistinct :
      (v : V) (vs : List V)
      → IsDistinct (keys_of key (v ∷ vs))
      → IsDistinct (keys_of key (insert le v vs))
  unfolding insert
  insert-IsDistinct v [] d = d
  insert-IsDistinct v (w ∷ ws) d = ground (
    arith,
    insert-IsDistinct v ws,
    includes-keys_of-insert v ws (key w),
    eq_iff (key v) (key w),
    eq_iff (key w) (key v),
  )

  find-insert :
      (v : V) (vs : List V) (k : String)
      → IsDistinct (keys_of key (v ∷ vs))
      → find_key key (insert le v vs) k ≡ find_key key (v ∷ vs) k
  unfolding insert
  find-insert v [] k d = refl
  find-insert v (w ∷ ws) k d =
      ground (arith, find-insert v ws k, eq_iff (key v) k, eq_iff (key w) k, eq_iff (key w) (key v))

  includes-keys_of-sort :
      (vs : List V) (k : String)
      → includes (keys_of key (sort le vs)) k ≡ includes (keys_of key vs) k
  unfolding sort
  includes-keys_of-sort [] k = refl
  includes-keys_of-sort (v ∷ vs) k =
      ground (arith, includes-keys_of-insert v (sort le vs) k, includes-keys_of-sort vs k)

  pub sort-IsDistinct :
      (vs : List V) → IsDistinct (keys_of key vs) → IsDistinct (keys_of key (sort le vs))
  unfolding sort
  sort-IsDistinct [] d = tt
  sort-IsDistinct (v ∷ vs) d =
      insert-IsDistinct v (sort le vs)
        (ground (arith, includes-keys_of-sort vs (key v)), sort-IsDistinct vs d.1)

  pub find-sort :
      (vs : List V) (k : String)
      → IsDistinct (keys_of key vs)
      → find_key key (sort le vs) k ≡ find_key key vs k
  unfolding sort
  find-sort [] k d = refl
  find-sort (v ∷ vs) k d = ground (
    arith,
    find-insert v (sort le vs) k,
    includes-keys_of-sort vs (key v),
    sort-IsDistinct vs d.1,
    find-sort vs k d.1,
  )
