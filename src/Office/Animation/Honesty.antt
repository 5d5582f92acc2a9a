-- ===== src/Office/Animation/Honesty.antt =====
-- What a behaviour that is shown says of the agent.
use virtual_office_sagara_ag.Prelude.{
  ℕ, zero, suc, ◌≡◌, refl, ◌⊎◌, inl, inr, Bool, true, false, List, [], ◌∷◌, any, if_cases, if_both,
  All,
}
use virtual_office_sagara_ag.Engine.{Engine}
use virtual_office_sagara_ag.Domain.Agent.{AgentStatus}
use virtual_office_sagara_ag.Office.Animation.Reals.{Reals}
use virtual_office_sagara_ag.Office.Animation.Behavior.{
  OfficeBehaviorState, BehaviorInput, choice, choose, active_behavior, behavior_in,
  resolve_office_behavior, is_blocked, running_choices, idle_choices, has_running_task, pick_seed,
}

abbrev IsWorking : AgentStatus → Bool → Type 0
IsWorking state blocked = (state ≡ AgentStatus.active) × (blocked ≡ false)

abbrev IsResting : AgentStatus → Type 0
IsResting state = (state ≡ AgentStatus.idle) ⊎ (state ≡ AgentStatus.recently_active)

-- The states of an agent at which a behaviour may be shown; `blocked` says that its task awaits an
-- approval, or that a pending approval is about the agent or its task.
abbrev pub Fits : OfficeBehaviorState → AgentStatus → Bool → Type 0
Fits OfficeBehaviorState.work_typing state blocked = IsWorking state blocked
Fits OfficeBehaviorState.work_mouse state blocked = IsWorking state blocked
Fits OfficeBehaviorState.work_reading state blocked = IsWorking state blocked
Fits OfficeBehaviorState.work_monitoring state blocked = IsWorking state blocked
Fits OfficeBehaviorState.work_supervising state blocked = IsWorking state blocked
Fits OfficeBehaviorState.work_collaborating state blocked = IsWorking state blocked
Fits OfficeBehaviorState.thinking state blocked = IsWorking state blocked
Fits OfficeBehaviorState.idle_seated state blocked = IsResting state
Fits OfficeBehaviorState.idle_look_around state blocked = state ≡ AgentStatus.idle
Fits OfficeBehaviorState.break_coffee state blocked = state ≡ AgentStatus.idle
Fits OfficeBehaviorState.break_stretch state blocked = state ≡ AgentStatus.idle
Fits OfficeBehaviorState.break_standing state blocked = IsResting state
Fits OfficeBehaviorState.walking state blocked = ⊥
Fits OfficeBehaviorState.waiting_approval state blocked =
    (state ≡ AgentStatus.awaiting_approval) ⊎ ((state ≡ AgentStatus.active) × (blocked ≡ true))
Fits OfficeBehaviorState.troubleshooting state blocked = state ≡ AgentStatus.degraded
Fits OfficeBehaviorState.error_review state blocked = state ≡ AgentStatus.error
Fits OfficeBehaviorState.configuring state blocked = state ≡ AgentStatus.configuration_incomplete
Fits OfficeBehaviorState.offline_away state blocked = state ≡ AgentStatus.offline
Fits OfficeBehaviorState.unknown_neutral state blocked = state ≡ AgentStatus.unknown

module _ {ℓ κ} {A : Type ℓ} (P : A → Type κ) where
  choice-All : (first : A) (rest : List A) (k : ℕ) → All P (first ∷ rest) → P (choice first rest k)
  unfolding choice
  choice-All first [] k h = h.0
  choice-All first (x ∷ rest) zero h = h.0
  choice-All first (x ∷ rest) (suc k) h = choice-All x rest k h.1

  choose-All :
      (first : A) (rest : List A) (seed : ℕ) → All P (first ∷ rest) → P (choose first rest seed)
  unfolding choose
  choose-All first rest seed h = choice-All first rest _ h

module _ {reals : Reals} (js : Engine) where
  active_behavior-Fits :
      (input : BehaviorInput reals)
      → Fits (active_behavior js input) AgentStatus.active (is_blocked input)
  unfolding active_behavior
  active_behavior-Fits input =
      if_cases shown (is_blocked input) (λ blocked. inr (refl, blocked))
        (λ free.
          let works : IsWorking AgentStatus.active (is_blocked input) = (refl, free) in
          if_both shown input.collaborating works (
            if_both shown (any _ input.delegations) works (
              if_both shown (has_running_task input)
                (choose-All shown OfficeBehaviorState.work_typing running_choices
                  (pick_seed js input) (works, (works, (works, (works, (works, tt))))))
                (choose-All shown OfficeBehaviorState.work_monitoring
                  (OfficeBehaviorState.thinking ∷ []) (pick_seed js input) (works, (works, tt))))))
    where
      shown : OfficeBehaviorState → Type 0
      shown b = Fits b AgentStatus.active (is_blocked input)

  behavior_in-Fits :
      (state : AgentStatus) (input : BehaviorInput reals)
      → Fits (behavior_in js state input) state (is_blocked input)
  unfolding behavior_in
  behavior_in-Fits AgentStatus.active input = active_behavior-Fits input
  behavior_in-Fits AgentStatus.idle input =
      choose-All (λ b. Fits b AgentStatus.idle (is_blocked input)) OfficeBehaviorState.idle_seated
        idle_choices _ (inl refl, (refl, (refl, (refl, (inl refl, tt)))))
  behavior_in-Fits AgentStatus.recently_active input =
      choose-All (λ b. Fits b AgentStatus.recently_active (is_blocked input))
        OfficeBehaviorState.idle_seated (OfficeBehaviorState.break_standing ∷ []) _
        (inr refl, (inr refl, tt))
  behavior_in-Fits AgentStatus.awaiting_approval input = inl refl
  behavior_in-Fits AgentStatus.degraded input = refl
  behavior_in-Fits AgentStatus.error input = refl
  behavior_in-Fits AgentStatus.configuration_incomplete input = refl
  behavior_in-Fits AgentStatus.offline input = refl
  behavior_in-Fits AgentStatus.unknown input = refl

  -- An agent is shown at work, thinking, supervising or collaborating only while it is active and nothing
  -- of its task or itself awaits an approval; at rest only while it is idle or was recently active; as
  -- waiting only where its state says so or an approval blocks it; and as in trouble, in error,
  -- configuring, away or unknown only in the state of that name.
  pub resolve_office_behavior-Fits :
      (input : BehaviorInput reals)
      → Fits (resolve_office_behavior js input) input.agent.runtime.state (is_blocked input)
  unfolding resolve_office_behavior
  resolve_office_behavior-Fits input = behavior_in-Fits input.agent.runtime.state input
