-- ===== src/Office/Approvals/Risks.antt =====
-- The risks of the pending approvals, counted over all the approvals that the pod is given.
use virtual_office_sagara_ag.Prelude.{
  ℕ, ◌≤◌, ◌<◌, ◌≡◌, refl, ap, ◌∙◌, Bool, true, false, ◌&&◌, ◌⊎◌, inl, inr, Option, none, some, List,
  length, filter, filter_eq, filter-filter, arith, if_cases, eqb, ltb,
}
use virtual_office_sagara_ag.Engine.{Engine}
use virtual_office_sagara_ag.Domain.Approval.{
  ApprovalProjection, ApprovalState, ApprovalRisk, is_pending, is_low, is_medium, is_high,
  is_critical,
}
use virtual_office_sagara_ag.Office.Types.{RiskCounts}
use virtual_office_sagara_ag.Office.Summaries.{
  approval_summary, pending_approvals, count_by_risk, highest_risk,
}

abbrev pub rank : ApprovalRisk → ℕ
rank ApprovalRisk.low = 1
rank ApprovalRisk.medium = 2
rank ApprovalRisk.high = 3
rank ApprovalRisk.critical = 4

abbrev awaits : ApprovalState → Bool
awaits ApprovalState.pending = true
awaits _ = false

-- How many of the approvals wait for a decision and pass a test.
abbrev pub waiting : (ApprovalProjection → Bool) → List ApprovalProjection → ℕ
waiting p approvals = length (filter (λ a. awaits a.state && p a) approvals)

abbrev pub has_risk : ApprovalRisk → ApprovalProjection → Bool
has_risk r a = eqb (rank r) (rank a.risk)

-- the count of a risk
abbrev pub of_risk : RiskCounts → ApprovalRisk → ℕ
of_risk counts ApprovalRisk.low = counts.low
of_risk counts ApprovalRisk.medium = counts.medium
of_risk counts ApprovalRisk.high = counts.high
of_risk counts ApprovalRisk.critical = counts.critical

-- Of approvals tallied by risk, the highest: some approval has it, and one of the risk `r` is none at
-- all or ranks at most as high; without a highest risk there is no approval.
abbrev pub IsHighest : (tally : ApprovalRisk → ℕ) → ApprovalRisk → Option ApprovalRisk → Type 0
IsHighest tally r none = tally r ≡ 0
IsHighest tally r (some top) = (0 < tally top) × ((tally r ≡ 0) ⊎ (rank r ≤ rank top))

pending-awaits : (s : ApprovalState) → is_pending s ≡ awaits s
pending-awaits ApprovalState.pending = refl
pending-awaits ApprovalState.approved = refl
pending-awaits ApprovalState.rejected = refl
pending-awaits ApprovalState.expired = refl
pending-awaits ApprovalState.cancelled = refl
pending-awaits ApprovalState.failed = refl

filter-pending :
    (p : ApprovalProjection → Bool) (approvals : List ApprovalProjection)
    → length (filter p (pending_approvals approvals)) ≡ waiting p approvals
filter-pending p approvals = ap length (
    filter-filter p (λ a. is_pending a.state) approvals
    ∙ filter_eq approvals (λ a. ap (λ b. b && p a) (pending-awaits a.state)))

length-pending :
    (approvals : List ApprovalProjection)
    → length (pending_approvals approvals) ≡ waiting (λ a. true) approvals
length-pending approvals =
    ap length (filter_eq approvals (λ a. pending-awaits a.state ∙ and_true (awaits a.state)))
  where
    and_true : (b : Bool) → b ≡ (b && true)
    and_true b = ground arith

-- the test that the code makes for each risk
risk_test : ApprovalRisk → ApprovalRisk → Bool
risk_test ApprovalRisk.low = is_low
risk_test ApprovalRisk.medium = is_medium
risk_test ApprovalRisk.high = is_high
risk_test ApprovalRisk.critical = is_critical

risk_test-rank : (r s : ApprovalRisk) → risk_test r s ≡ eqb (rank r) (rank s)
unfolding risk_test
risk_test-rank ApprovalRisk.low ApprovalRisk.low = refl
risk_test-rank ApprovalRisk.low ApprovalRisk.medium = refl
risk_test-rank ApprovalRisk.low ApprovalRisk.high = refl
risk_test-rank ApprovalRisk.low ApprovalRisk.critical = refl
risk_test-rank ApprovalRisk.medium ApprovalRisk.low = refl
risk_test-rank ApprovalRisk.medium ApprovalRisk.medium = refl
risk_test-rank ApprovalRisk.medium ApprovalRisk.high = refl
risk_test-rank ApprovalRisk.medium ApprovalRisk.critical = refl
risk_test-rank ApprovalRisk.high ApprovalRisk.low = refl
risk_test-rank ApprovalRisk.high ApprovalRisk.medium = refl
risk_test-rank ApprovalRisk.high ApprovalRisk.high = refl
risk_test-rank ApprovalRisk.high ApprovalRisk.critical = refl
risk_test-rank ApprovalRisk.critical ApprovalRisk.low = refl
risk_test-rank ApprovalRisk.critical ApprovalRisk.medium = refl
risk_test-rank ApprovalRisk.critical ApprovalRisk.high = refl
risk_test-rank ApprovalRisk.critical ApprovalRisk.critical = refl

-- Each count of the pod is that of its risk.
of_risk-count_by_risk :
    (r : ApprovalRisk) (xs : List ApprovalProjection)
    → of_risk (count_by_risk xs) r ≡ length (filter (λ a. risk_test r a.risk) xs)
unfolding risk_test
of_risk-count_by_risk ApprovalRisk.low xs = refl
of_risk-count_by_risk ApprovalRisk.medium xs = refl
of_risk-count_by_risk ApprovalRisk.high xs = refl
of_risk-count_by_risk ApprovalRisk.critical xs = refl

of_risk-waiting :
    (approvals : List ApprovalProjection) (r : ApprovalRisk)
    → of_risk (count_by_risk (pending_approvals approvals)) r ≡ waiting (has_risk r) approvals
of_risk-waiting approvals r =
    of_risk-count_by_risk r (pending_approvals approvals)
    ∙ ap length (filter_eq (pending_approvals approvals) (λ a. risk_test-rank r a.risk))
    ∙ filter-pending (has_risk r) approvals

highest_risk-IsHighest :
    (tally : ApprovalRisk → ℕ) (counts : RiskCounts)
    → ((r : ApprovalRisk) → of_risk counts r ≡ tally r)
    → (r : ApprovalRisk) → IsHighest tally r (highest_risk counts)
highest_risk-IsHighest tally counts e r =
    if_cases (IsHighest tally r) (ltb 0 counts.critical)
      (λ t. (ground (arith, t, e ApprovalRisk.critical), at_most_critical r))
      (λ no_critical.
        if_cases (IsHighest tally r) (ltb 0 counts.high)
          (λ t. (ground (arith, t, e ApprovalRisk.high), at_most_high no_critical r))
          (λ no_high.
            if_cases (IsHighest tally r) (ltb 0 counts.medium)
              (λ t.
                (ground (arith, t, e ApprovalRisk.medium), at_most_medium no_critical no_high r))
              (λ no_medium.
                if_cases (IsHighest tally r) (ltb 0 counts.low)
                  (λ t. (
                    ground (arith, t, e ApprovalRisk.low),
                    at_most_low no_critical no_high no_medium r,
                  ))
                  (λ no_low. nothing no_critical no_high no_medium no_low r))))
  where
    at_most_critical : (r : ApprovalRisk) → (tally r ≡ 0) ⊎ (rank r ≤ 4)
    at_most_critical ApprovalRisk.low = inr (omega arith)
    at_most_critical ApprovalRisk.medium = inr (omega arith)
    at_most_critical ApprovalRisk.high = inr (omega arith)
    at_most_critical ApprovalRisk.critical = inr (omega arith)

    at_most_high : ltb 0 counts.critical ≡ false → (r : ApprovalRisk) → (tally r ≡ 0) ⊎ (rank r ≤ 3)
    at_most_high c ApprovalRisk.low = inr (omega arith)
    at_most_high c ApprovalRisk.medium = inr (omega arith)
    at_most_high c ApprovalRisk.high = inr (omega arith)
    at_most_high c ApprovalRisk.critical = inl (ground (arith, c, e ApprovalRisk.critical))

    at_most_medium :
        ltb 0 counts.critical ≡ false
        → ltb 0 counts.high ≡ false
        → (r : ApprovalRisk) → (tally r ≡ 0) ⊎ (rank r ≤ 2)
    at_most_medium c h ApprovalRisk.low = inr (omega arith)
    at_most_medium c h ApprovalRisk.medium = inr (omega arith)
    at_most_medium c h ApprovalRisk.high = inl (ground (arith, h, e ApprovalRisk.high))
    at_most_medium c h ApprovalRisk.critical = inl (ground (arith, c, e ApprovalRisk.critical))

    at_most_low :
        ltb 0 counts.critical ≡ false
        → ltb 0 counts.high ≡ false
        → ltb 0 counts.medium ≡ false
        → (r : ApprovalRisk) → (tally r ≡ 0) ⊎ (rank r ≤ 1)
    at_most_low c h m ApprovalRisk.low = inr (omega arith)
    at_most_low c h m ApprovalRisk.medium = inl (ground (arith, m, e ApprovalRisk.medium))
    at_most_low c h m ApprovalRisk.high = inl (ground (arith, h, e ApprovalRisk.high))
    at_most_low c h m ApprovalRisk.critical = inl (ground (arith, c, e ApprovalRisk.critical))

    nothing :
        ltb 0 counts.critical ≡ false
        → ltb 0 counts.high ≡ false
        → ltb 0 counts.medium ≡ false
        → ltb 0 counts.low ≡ false
        → (r : ApprovalRisk) → tally r ≡ 0
    nothing c h m l ApprovalRisk.low = ground (arith, l, e ApprovalRisk.low)
    nothing c h m l ApprovalRisk.medium = ground (arith, m, e ApprovalRisk.medium)
    nothing c h m l ApprovalRisk.high = ground (arith, h, e ApprovalRisk.high)
    nothing c h m l ApprovalRisk.critical = ground (arith, c, e ApprovalRisk.critical)

-- Of the approval pod, for any list of approvals: its items that pass a test are as many as the pending
-- approvals of the list that pass it, its count is that of all pending approvals, and the count of each
-- risk is that of the pending approvals with this risk. The risk shown as the highest is that of a
-- pending approval, no pending approval has a higher one, and none is shown only where no approval is
-- pending.
pub approval_summary-risks :
    (js : Engine) (approvals : List ApprovalProjection) (p : ApprovalProjection → Bool)
    (r : ApprovalRisk)
    → (length (filter p (approval_summary js approvals).items) ≡ waiting p approvals)
      × ((approval_summary js approvals).pending_count ≡ waiting (λ a. true) approvals)
      × (of_risk (approval_summary js approvals).by_risk r ≡ waiting (has_risk r) approvals)
      × IsHighest
          (λ s. waiting (has_risk s) approvals)
          r
          (approval_summary js approvals).highest_risk
unfolding approval_summary
approval_summary-risks js approvals p r = (
  filter-pending p approvals,
  length-pending approvals,
  of_risk-waiting approvals r,
  highest_risk-IsHighest (λ s. waiting (has_risk s) approvals)
      (count_by_risk (pending_approvals approvals)) (of_risk-waiting approvals) r,
)
