-- ===== src/Office/Approvals/Oldest.antt =====
-- The oldest pending approval.
use mathlib.Core.Path.{subst}
use virtual_office_sagara_ag.Prelude.{
  ℕ, ◌≡◌, refl, sym, ap, ◌∙◌, Bool, true, false, Option, some, List, [], ◌∷◌, any, All, ltb, leb,
  arith, or_else,
}
use virtual_office_sagara_ag.Prelude.Sort.{
  insert, sort, IsSorted, sort-IsSorted, any-sort, All-sort,
}
use virtual_office_sagara_ag.Engine.{Engine}
use virtual_office_sagara_ag.Domain.Approval.{ApprovalProjection}
use virtual_office_sagara_ag.Office.Summaries.{
  approval_summary, pending_approvals, requested_le, first,
}

module _ (js : Engine) where
  -- the time of the request reads as a date
  pub record HasTime (a : ApprovalProjection) : Type 0 where
    pub time : ℕ
    pub reads : js.get_time a.requested_at ≡ some time

  abbrev pub time_of : ApprovalProjection → ℕ
  time_of a = or_else (js.get_time a.requested_at) 0

  abbrev time_le : ApprovalProjection → ApprovalProjection → Bool
  time_le a b = leb (time_of a) (time_of b)

  insert-time_le :
      (a : ApprovalProjection) (xs : List ApprovalProjection)
      → HasTime a
      → All HasTime xs
      → insert (requested_le js) a xs ≡ insert time_le a xs
  unfolding insert
  insert-time_le a [] h hs = refl
  insert-time_le a (b ∷ rest) h hs =
      ground (arith, h.reads, hs.0.reads, insert-time_le a rest h hs.1)

  sort-time_le :
      (xs : List ApprovalProjection) → All HasTime xs → sort (requested_le js) xs ≡ sort time_le xs
  unfolding sort
  sort-time_le [] h = refl
  sort-time_le (a ∷ rest) h =
      insert-time_le a (sort (requested_le js) rest) h.0
        (All-sort (requested_le js) HasTime rest h.1)
      ∙ ap (insert time_le a) (sort-time_le rest h.1)

  time_le-IsSorted : (xs : List ApprovalProjection) → IsSorted time_le (sort time_le xs)
  time_le-IsSorted xs =
      sort-IsSorted time_le (λ a b. ground arith) (λ a b c h k. ground (arith, h, k)) xs

  abbrev pub is_earlier : ApprovalProjection → ApprovalProjection → Bool
  is_earlier o a = ltb (time_of a) (time_of o)

  none_earlier :
      (o : ApprovalProjection) (xs : List ApprovalProjection)
      → All (λ y. time_le o y ≡ true) xs
      → any (is_earlier o) xs ≡ false
  none_earlier o [] h = refl
  none_earlier o (a ∷ rest) h = ground (arith, h.0, none_earlier o rest h.1)

  first-IsSorted :
      (o : ApprovalProjection) (xs : List ApprovalProjection)
      → IsSorted time_le xs
      → first xs ≡ some o
      → any (is_earlier o) xs ≡ false
  first-IsSorted o [] s h = refl
  first-IsSorted o (a ∷ rest) s h =
      subst (λ z. any (is_earlier z) (a ∷ rest) ≡ false) (same a o h)
        (ground (arith, none_earlier a rest s.0))
    where
      same : (x y : ApprovalProjection) → Path (Option ApprovalProjection) (some x) (some y) → x ≡ y
      same x y e = cc e

  -- Where the pending approvals' times read as dates, none of them was requested before the one that
  -- is shown as the oldest.
  oldest_pending-first :
      (o : ApprovalProjection) (approvals : List ApprovalProjection)
      → All HasTime (approval_summary js approvals).items
      → (approval_summary js approvals).oldest_pending ≡ some o
      → any (is_earlier o) (approval_summary js approvals).items ≡ false
  unfolding approval_summary
  oldest_pending-first o approvals h e =
      sym (any-sort time_le (is_earlier o) (pending_approvals approvals))
      ∙ first-IsSorted o (sort time_le (pending_approvals approvals))
          (time_le-IsSorted (pending_approvals approvals))
          (sym (ap first (sort-time_le (pending_approvals approvals) h)) ∙ e)
