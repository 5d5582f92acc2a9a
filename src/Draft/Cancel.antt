-- ===== src/Draft/Cancel.antt =====
-- A change that is taken back: the others decide as before.
use mathlib.Core.Path.{subst}
use virtual_office_sagara_ag.Prelude.{
  String, ◌≡◌, ◌∙◌, Bool, true, false, not, ◌&&◌, some, List, [], ◌∷◌, map, ◌==◌, if◌then◌else◌,
  filter, find, any, includes, arith, eq_iff, eq_refl, Bool-cases, inl, inr, true→eq,
}
use virtual_office_sagara_ag.Prelude.JsSet.{IsDistinct}
use virtual_office_sagara_ag.Draft.Store.{ProfileDraftChange, is_add, has_other_id}
use virtual_office_sagara_ag.Draft.Effective.{decide, verdict}
use virtual_office_sagara_ag.Draft.Tidy.{
  change_id, touches, is_minimal, decide-untouched, verdict-untouched, filter-other_id, found-id,
  change_injective,
}

-- The first change of a minimal list: no later one is about its skill, and it is a real change.
is_minimal-head :
    (p s : String) (original : List String) (c : ProfileDraftChange)
    (rest : List ProfileDraftChange)
    → is_minimal p original (c ∷ rest) ≡ true
    → touches p s c ≡ true
    → (any (touches p s) rest ≡ false)
      × ((if is_add c.action then not (includes original s) else includes original s) ≡ true)
is_minimal-head p s original c rest h t = (rw same at later, rw same at real)
  where
    same : c.target_value ≡ s
    same = true→eq c.target_value s (ground (arith, t))

    later : any (touches p c.target_value) rest ≡ false
    later = ground (arith, h, t, eq_refl c.target_value)

    real :
        (if is_add c.action
          then not (includes original c.target_value)
          else includes original c.target_value)
        ≡ true
    real = ground (arith, h, t, eq_refl c.target_value)

touches_only :
    (p s r t : String) (c : ProfileDraftChange)
    → touches p s c ≡ true
    → (p == r && s == t) ≡ false
    → touches r t c ≡ false
touches_only p s r t c h ne = ground (
  arith,
  h,
  ne,
  eq_iff p r,
  eq_iff s t,
  eq_iff c.profile_id p,
  eq_iff c.profile_id r,
  eq_iff c.target_value s,
  eq_iff c.target_value t,
)

module _ (p s : String) (original : List String) (hit : ProfileDraftChange → Bool)
    (hits : (c : ProfileDraftChange) → hit c ≡ true → touches p s c ≡ true) where
  found-touches :
      (cs : List ProfileDraftChange) (e : ProfileDraftChange)
      → find hit cs ≡ some e
      → any (touches p s) cs ≡ true
  found-touches [] e h = cc h
  found-touches (c ∷ rest) e h = elim (Bool-cases (hit c)) [
    | inl t ↦ ground (arith, hits c t)
    | inr f ↦ ground (arith, found-touches rest e (rw f at h))
  ]

  pub found-hit :
      (cs : List ProfileDraftChange) (e : ProfileDraftChange) → find hit cs ≡ some e → hit e ≡ true
  found-hit [] e h = cc h
  found-hit (c ∷ rest) e h = elim (Bool-cases (hit c)) [
    | inl t ↦ subst (λ z. hit z ≡ true) (change_injective c e (rw t at h)) t
    | inr f ↦ found-hit rest e (rw f at h)
  ]

  -- The change that is found decides.
  pub verdict-found :
      (v : Bool)
      → ((c : ProfileDraftChange) (b : Bool)
          → hit c ≡ true
          → (if c.profile_id == p then decide s c b else b) ≡ v)
      → (cs : List ProfileDraftChange) (e : ProfileDraftChange) (b : Bool) → find hit cs ≡ some e
      → is_minimal p original cs ≡ true
      → verdict p s cs b ≡ v
  verdict-found v sets [] e b h m = cc h
  verdict-found v sets (c ∷ rest) e b h m = elim (Bool-cases (hit c)) [
    | inl t ↦
        verdict-untouched p s rest _ (is_minimal-head p s original c rest m (hits c t)).0
        ∙ sets c b t
    | inr f ↦ verdict-found v sets rest e _ (rw f at h) (ground (arith, m))
  ]

  -- The change that is found is a real one.
  pub found-original :
      (cs : List ProfileDraftChange) (e : ProfileDraftChange)
      → find hit cs ≡ some e
      → is_minimal p original cs ≡ true
      → (if is_add e.action then not (includes original s) else includes original s) ≡ true
  found-original [] e h m = cc h
  found-original (c ∷ rest) e h m = elim (Bool-cases (hit c)) [
    | inl t ↦
        rw⁻¹ (change_injective c e (rw t at h)) (is_minimal-head p s original c rest m (hits c t)).1
    | inr f ↦ found-original rest e (rw f at h) (ground (arith, m))
  ]

  -- A step of the rest, before the change is found.
  keeps_first :
      (r t : String) (c : ProfileDraftChange) (rest : List ProfileDraftChange)
      (e : ProfileDraftChange) (b : Bool)
      → find hit rest ≡ some e
      → is_minimal p original (c ∷ rest) ≡ true
      → (p == r && s == t) ≡ true
      → (if c.profile_id == r then decide t c b else b) ≡ b
  keeps_first r t c rest e b h m same =
      rw⁻¹ (true→eq p r (ground (arith, same)), true→eq s t (ground (arith, same)))
        (decide-untouched p s c b (elim (Bool-cases (touches p s c)) [
          | inl y ↦ cc (found-touches rest e h, (is_minimal-head p s original c rest m y).0)
          | inr f ↦ f
        ]))

  -- Without the change that is found, its skill is left as it was, and all else is as with it.
  pub verdict-cancel :
      (r t : String) (cs : List ProfileDraftChange) (e : ProfileDraftChange) (b : Bool)
      → find hit cs ≡ some e
      → IsDistinct (map change_id cs)
      → is_minimal p original cs ≡ true
      → verdict r t (filter (has_other_id e) cs) b
        ≡ (if p == r && s == t then b else verdict r t cs b)
  verdict-cancel r t [] e b h d m = cc h
  verdict-cancel r t (c ∷ rest) e b h d m = elim (Bool-cases (hit c)) [
    | inl y ↦
        subst
          (λ z.
            verdict r t (filter (has_other_id z) (c ∷ rest)) b
            ≡ (if p == r && s == t then b else verdict r t (c ∷ rest) b))
          (change_injective c e (rw y at h)) (first y)
    | inr f ↦
        later (rw f at h) (λ b'. verdict-cancel r t rest e b' (rw f at h) d.1 (ground (arith, m)))
  ]
    where
      kept : hit c ≡ true → (p == r && s == t) ≡ true → verdict r t rest b ≡ b
      kept y same =
          rw⁻¹ (true→eq p r (ground (arith, same)), true→eq s t (ground (arith, same)))
            (verdict-untouched p s rest b (is_minimal-head p s original c rest m (hits c y)).0)

      first :
          hit c ≡ true
          → verdict r t (filter (has_other_id c) (c ∷ rest)) b
            ≡ (if p == r && s == t then b else verdict r t (c ∷ rest) b)
      first y = elim (Bool-cases (p == r && s == t)) [
        | inl same ↦ ground (arith, same, eq_refl c.id, filter-other_id c rest d.0, kept y same)
        | inr ne ↦ ground (
          arith,
          ne,
          eq_refl c.id,
          filter-other_id c rest d.0,
          decide-untouched r t c b (touches_only p s r t c (hits c y) ne),
        )
      ]

      later :
          find hit rest ≡ some e
          → ((b' : Bool)
              → verdict r t (filter (has_other_id e) rest) b'
                ≡ (if p == r && s == t then b' else verdict r t rest b'))
          → verdict r t (filter (has_other_id e) (c ∷ rest)) b
            ≡ (if p == r && s == t then b else verdict r t (c ∷ rest) b)
      later found rec = ground (
        arith,
        rec (if c.profile_id == r then decide t c b else b),
        keeps_first r t c rest e b found m,
        found-id hit rest e found,
        d.0,
        eq_iff c.id e.id,
      )
