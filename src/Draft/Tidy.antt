-- ===== src/Draft/Tidy.antt =====
-- Lists of changes that say each thing once.
use virtual_office_sagara_ag.Prelude.{
  String, ◌≡◌, refl, ap, ◌∙◌, Bool, true, false, not, ◌&&◌, ◌||◌, Option, some, List, [], ◌∷◌, ◌++◌,
  map, ◌==◌, if◌then◌else◌, filter, find, any, includes, arith, eq_iff, eq_refl, Bool-cases, inl,
  inr,
}
use virtual_office_sagara_ag.Prelude.JsSet.{IsDistinct}
use virtual_office_sagara_ag.Draft.Store.{
  ProfileDraftChange, ChangeAction, is_add, is_remove, has_other_id,
}
use virtual_office_sagara_ag.Draft.Effective.{decide, verdict}

abbrev pub change_id : ProfileDraftChange → String
change_id c = c.id

-- The change adds or removes the skill for the profile.
abbrev pub touches : String → String → ProfileDraftChange → Bool
touches p s c =
    c.profile_id == p && ((is_add c.action || is_remove c.action) && c.target_value == s)

-- For the profile, a change adds a skill that is not an original one or removes one that is, and no
-- later change is about the same skill.
abbrev pub is_minimal : String → List String → List ProfileDraftChange → Bool
is_minimal p original [] = true
is_minimal p original (c ∷ rest) =
    (not (touches p c.target_value c)
      || not (any (touches p c.target_value) rest)
        && (if is_add c.action
            then not (includes original c.target_value)
            else includes original c.target_value))
    && is_minimal p original rest

pub any-filter :
    (p s : String) (f : ProfileDraftChange → Bool) (cs : List ProfileDraftChange)
    → any (touches p s) cs ≡ false
    → any (touches p s) (filter f cs) ≡ false
any-filter p s f [] h = refl
any-filter p s f (c ∷ rest) h = ground (arith, h, any-filter p s f rest)

pub is_minimal-filter :
    (p : String) (original : List String) (f : ProfileDraftChange → Bool)
    (cs : List ProfileDraftChange)
    → is_minimal p original cs ≡ true
    → is_minimal p original (filter f cs) ≡ true
is_minimal-filter p original f [] h = refl
is_minimal-filter p original f (c ∷ rest) h =
    ground (arith, h, is_minimal-filter p original f rest, any-filter p c.target_value f rest)

pub any-append :
    (p s : String) (xs ys : List ProfileDraftChange)
    → any (touches p s) (xs ++ ys) ≡ (any (touches p s) xs || any (touches p s) ys)
any-append p s [] ys = refl
any-append p s (c ∷ rest) ys = ground (arith, any-append p s rest ys)

or_left : (x y : Bool) → (x || y) ≡ false → x ≡ false
or_left x y e = ground (arith, e)

or_right : (x y : Bool) → (x || y) ≡ false → y ≡ false
or_right x y e = ground (arith, e)

pub decide-untouched :
    (p s : String) (c : ProfileDraftChange) (b : Bool)
    → touches p s c ≡ false
    → (if c.profile_id == p then decide s c b else b) ≡ b
decide-untouched p s c b h = go c.action h
  where
    go :
        (a : ChangeAction)
        → touches p s (record c { action = a }) ≡ false
        → (if c.profile_id == p then decide s (record c { action = a }) b else b) ≡ b
    go ChangeAction.add_skill k = ground (arith, k)
    go ChangeAction.remove_skill k = ground (arith, k)
    go ChangeAction.update_model k = ground arith

-- A skill that no change is about is left as it was.
pub verdict-untouched :
    (p s : String) (cs : List ProfileDraftChange) (b : Bool)
    → any (touches p s) cs ≡ false
    → verdict p s cs b ≡ b
verdict-untouched p s [] b h = refl
verdict-untouched p s (c ∷ rest) b h =
    ap (verdict p s rest) (decide-untouched p s c b (or_left _ _ h))
    ∙ verdict-untouched p s rest b (or_right _ _ h)

-- Ids that differ.
pub filter-other_id :
    (e : ProfileDraftChange) (cs : List ProfileDraftChange)
    → includes (map change_id cs) e.id ≡ false
    → filter (has_other_id e) cs ≡ cs
filter-other_id e [] h = refl
filter-other_id e (c ∷ rest) h = ground (arith, h, filter-other_id e rest)

pub includes-map-filter :
    (f : ProfileDraftChange → Bool) (cs : List ProfileDraftChange) (i : String)
    → includes (map change_id cs) i ≡ false
    → includes (map change_id (filter f cs)) i ≡ false
includes-map-filter f [] i h = refl
includes-map-filter f (c ∷ rest) i h = ground (arith, h, includes-map-filter f rest i)

pub filter-IsDistinct :
    (f : ProfileDraftChange → Bool) (cs : List ProfileDraftChange)
    → IsDistinct (map change_id cs)
    → IsDistinct (map change_id (filter f cs))
filter-IsDistinct f [] d = tt
filter-IsDistinct f (c ∷ rest) d =
    ground (arith, filter-IsDistinct f rest d.1, includes-map-filter f rest c.id d.0)

pub append-IsDistinct :
    (cs : List ProfileDraftChange) (c : ProfileDraftChange)
    → includes (map change_id cs) c.id ≡ false
    → IsDistinct (map change_id cs)
    → IsDistinct (map change_id (cs ++ c ∷ []))
append-IsDistinct [] c h d = (refl, tt)
append-IsDistinct (x ∷ rest) c h d = (
  ground (arith, h, d.0, includes-map_append rest c x.id, eq_iff x.id c.id, eq_iff c.id x.id),
  append-IsDistinct rest c (ground (arith, h)) d.1,
)
  where
    includes-map_append :
        (ys : List ProfileDraftChange) (y : ProfileDraftChange) (i : String)
        → includes (map change_id (ys ++ y ∷ [])) i ≡ (includes (map change_id ys) i || y.id == i)
    includes-map_append [] y i = ground arith
    includes-map_append (z ∷ zs) y i = ground (arith, includes-map_append zs y i)

pub change_injective :
    (x y : ProfileDraftChange) → Path (Option ProfileDraftChange) (some x) (some y) → x ≡ y
change_injective x y e = cc e

pub found-id :
    (hit : ProfileDraftChange → Bool) (cs : List ProfileDraftChange) (e : ProfileDraftChange)
    → find hit cs ≡ some e
    → includes (map change_id cs) e.id ≡ true
found-id hit [] e h = cc h
found-id hit (c ∷ rest) e h = elim (Bool-cases (hit c)) [
  | inl t ↦ rw (change_injective c e (rw t at h)) (ground (arith, eq_refl e.id))
  | inr f ↦ ground (arith, found-id hit rest e (rw f at h))
]

and_left : (x y : Bool) → (x && y) ≡ true → x ≡ true
and_left x y h = ground (arith, h)

and_right : (x y : Bool) → (x && y) ≡ true → y ≡ true
and_right x y h = ground (arith, h)

and_both : (x y : Bool) → x ≡ true → y ≡ true → (x && y) ≡ true
and_both x y hx hy = ground (arith, hx, hy)

-- The test on a change, when one more change follows: it is about another skill.
still_first :
    (a b d r : Bool)
    → (not a || not b && r) ≡ true
    → (a ≡ true → d ≡ false)
    → (not a || not (b || (d || false)) && r) ≡ true
still_first a b d r h f = ground (arith, h, f)

other_target :
    (p : String) (c x : ProfileDraftChange) (rest : List ProfileDraftChange)
    → any (touches p c.target_value) (x ∷ rest) ≡ false
    → touches p x.target_value x ≡ true
    → touches p x.target_value c ≡ false
other_target p c x rest new t =
    ground
      (arith, new, t, eq_iff c.target_value x.target_value, eq_iff x.target_value c.target_value)

pub is_minimal-append :
    (p : String) (original : List String) (c : ProfileDraftChange) (cs : List ProfileDraftChange)
    → is_minimal p original cs ≡ true
    → any (touches p c.target_value) cs ≡ false
    → (if is_add c.action
        then not (includes original c.target_value)
        else includes original c.target_value)
      ≡ true
    → is_minimal p original (cs ++ c ∷ []) ≡ true
is_minimal-append p original c [] m new real = ground (arith, real)
is_minimal-append p original c (x ∷ rest) m new real =
    and_both _ _
      (rw (any-append p x.target_value rest (c ∷ [])) (
        still_first _ (any (touches p x.target_value) rest) _ _ (and_left _ _ m)
          (other_target p c x rest new)))
      (is_minimal-append p original c rest (and_right _ _ m) (or_right _ _ new) real)

pub is_minimal-append_ne :
    (p : String) (original : List String) (c : ProfileDraftChange) (cs : List ProfileDraftChange)
    → is_minimal p original cs ≡ true
    → (c.profile_id == p) ≡ false
    → is_minimal p original (cs ++ c ∷ []) ≡ true
is_minimal-append_ne p original c [] m ne = ground (arith, ne)
is_minimal-append_ne p original c (x ∷ rest) m ne =
    and_both _ _
      (rw (any-append p x.target_value rest (c ∷ [])) (
        still_first _ (any (touches p x.target_value) rest) _ _ (and_left _ _ m)
          (λ _. ground (arith, ne))))
      (is_minimal-append_ne p original c rest (and_right _ _ m) ne)
