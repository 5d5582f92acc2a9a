-- ===== src/Office/Animation/Behavior.antt =====
-- frontend/src/features/office/animation/behavior.ts
use Prim.Native.Nat.{bit_xor}
use virtual_office_sagara_ag.Prelude.{
  ℕ, zero, suc, ◌+◌, ◌*◌, ◌%◌, ◌^◌, String, Bool, true, false, ◌&&◌, ◌||◌, Option, none, some, List,
  [], ◌∷◌, ◌==◌, if◌then◌else◌, leb, ltb, eqb, any, is_text, length, append_text,
}
use virtual_office_sagara_ag.Engine.{Engine}
use virtual_office_sagara_ag.Domain.Agent.{AgentStatus, AgentProjection}
use virtual_office_sagara_ag.Domain.Runtime.{DelegationState, DelegationProjection}
use virtual_office_sagara_ag.Domain.Task.{TaskProjection, is_running, is_awaiting_approval}
use virtual_office_sagara_ag.Domain.Approval.{ApprovalProjection, is_pending}
use virtual_office_sagara_ag.Office.Animation.Reals.{Reals, whole}

pub data OfficeBehaviorState : Type 0 where
  work_typing work_mouse work_reading work_monitoring work_supervising : OfficeBehaviorState
  work_collaborating thinking idle_seated idle_look_around break_coffee : OfficeBehaviorState
  break_stretch break_standing walking waiting_approval troubleshooting : OfficeBehaviorState
  error_review configuring offline_away unknown_neutral : OfficeBehaviorState

pub data AnimationQuality : Type 0 where
  full balanced lite : AnimationQuality

-- The first code unit of each code point: `for (const char of id) … char.charCodeAt(0)`. A low
-- surrogate belongs to the high one before it.
abbrev is_high_surrogate : ℕ → Bool
is_high_surrogate u = leb 0xD800 u && leb u 0xDBFF

abbrev is_low_surrogate : ℕ → Bool
is_low_surrogate u = leb 0xDC00 u && leb u 0xDFFF

unfoldable pub first_units : List ℕ → List ℕ
first_units [] = []
first_units (u ∷ []) = u ∷ []
first_units (u ∷ v ∷ rest) = elim (is_high_surrogate u && is_low_surrogate v) [
  | true ↦ u ∷ first_units rest
  | false ↦ u ∷ first_units (v ∷ rest)
]

-- The loop of `presentationSeed`; a 32-bit word is kept as its unsigned reading.
unfoldable pub seed_units : ℕ → List ℕ → ℕ
seed_units hash [] = hash
seed_units hash (u ∷ rest) = seed_units (bit_xor hash u * 16777619 % 2 ^ 32) rest

-- `presentationSeed`
unfoldable pub presentation_seed : Engine → String → ℕ
unfolding seed_units first_units
presentation_seed js id = seed_units 2166136261 (first_units (js.code_units id))

-- A value of the union is its own spelling in JavaScript.
unfoldable pub spell_status : AgentStatus → String
spell_status AgentStatus.active = "ACTIVE"
spell_status AgentStatus.idle = "IDLE"
spell_status AgentStatus.recently_active = "RECENTLY_ACTIVE"
spell_status AgentStatus.awaiting_approval = "AWAITING_APPROVAL"
spell_status AgentStatus.degraded = "DEGRADED"
spell_status AgentStatus.error = "ERROR"
spell_status AgentStatus.offline = "OFFLINE"
spell_status AgentStatus.unknown = "UNKNOWN"
spell_status AgentStatus.configuration_incomplete = "CONFIGURATION_INCOMPLETE"

-- `choices[k]`, the first one where `k` is out of range, as it never is
unfoldable pub choice {ℓ} : {A : Type ℓ} → A → List A → ℕ → A
choice first [] k = first
choice first (x ∷ rest) zero = first
choice first (x ∷ rest) (suc k) = choice x rest k

-- `choices[seed % choices.length]`
unfoldable pub choose {ℓ} : {A : Type ℓ} → A → List A → ℕ → A
unfolding choice
choose first rest seed = choice first rest (seed % (length rest + 1))

-- what an active agent with a running task and an idle agent may do, after the first choice
abbrev pub running_choices : List OfficeBehaviorState
running_choices =
    OfficeBehaviorState.work_mouse ∷ OfficeBehaviorState.work_reading
    ∷ OfficeBehaviorState.work_monitoring ∷ OfficeBehaviorState.thinking ∷ []

abbrev pub idle_choices : List OfficeBehaviorState
idle_choices =
    OfficeBehaviorState.idle_look_around ∷ OfficeBehaviorState.break_stretch
    ∷ OfficeBehaviorState.break_coffee ∷ OfficeBehaviorState.break_standing ∷ []

module _ (reals : Reals) where
  open reals use {Real, max, div, floor_text}

  pub record BehaviorInput : Type 0 where
    pub agent : AgentProjection
    pub task : Option TaskProjection
    pub delegations : List DelegationProjection
    pub approvals : List ApprovalProjection
    pub collaborating : Bool
    pub elapsed_seconds : Real

-- `a.state === 'PENDING' && (a.agentId === agent.id || (task && a.taskId === task.id))`
abbrev pub concerns : AgentProjection → Option TaskProjection → ApprovalProjection → Bool
concerns agent task a =
    is_pending a.state
    && (is_text a.agent_id agent.id || elim task [ none ↦ false | some t ↦ is_text a.task_id t.id ])

abbrev pub supervises : AgentProjection → DelegationProjection → Bool
supervises agent d =
    d.origin_agent_id == agent.id && elim d.state [ DelegationState.running ↦ true | _ ↦ false ]

module _ {reals : Reals} where
  -- `blockedTask`
  abbrev pub is_blocked : BehaviorInput reals → Bool
  is_blocked input =
      elim input.task [ none ↦ false | some t ↦ is_awaiting_approval t.state ]
      || any (concerns input.agent input.task) input.approvals

  -- `task?.state === 'RUNNING'`
  abbrev pub has_running_task : BehaviorInput reals → Bool
  has_running_task input = elim input.task [ none ↦ false | some t ↦ is_running t.state ]

  -- the seed with which `pick` chooses
  unfoldable pub pick_seed : Engine → BehaviorInput reals → ℕ
  unfolding presentation_seed spell_status
  pick_seed js input =
      let seed = presentation_seed js input.agent.id in
      let window = reals.floor_text (
        reals.div (reals.max (whole reals 0) input.elapsed_seconds)
          (whole reals (45 + seed % 31))) in
      presentation_seed js (
        append_text input.agent.id (
          append_text ":"
            (append_text (spell_status input.agent.runtime.state) (append_text ":" window))))

  -- the case `'ACTIVE'`
  unfoldable pub active_behavior : Engine → BehaviorInput reals → OfficeBehaviorState
  unfolding pick_seed choose
  active_behavior js input =
      if is_blocked input
      then OfficeBehaviorState.waiting_approval
      else if input.collaborating
      then OfficeBehaviorState.work_collaborating
      else if any (supervises input.agent) input.delegations
      then OfficeBehaviorState.work_supervising
      else if has_running_task input
      then choose OfficeBehaviorState.work_typing running_choices (pick_seed js input)
      else choose OfficeBehaviorState.work_monitoring (OfficeBehaviorState.thinking ∷ [])
          (pick_seed js input)

  -- `resolveOfficeBehavior`, on the agent's state
  unfoldable pub behavior_in : Engine → AgentStatus → BehaviorInput reals → OfficeBehaviorState
  unfolding active_behavior pick_seed choose
  behavior_in js AgentStatus.active input = active_behavior js input
  behavior_in js AgentStatus.idle input =
      choose OfficeBehaviorState.idle_seated idle_choices (pick_seed js input)
  behavior_in js AgentStatus.recently_active input =
      choose OfficeBehaviorState.idle_seated (OfficeBehaviorState.break_standing ∷ [])
        (pick_seed js input)
  behavior_in js AgentStatus.awaiting_approval input = OfficeBehaviorState.waiting_approval
  behavior_in js AgentStatus.degraded input = OfficeBehaviorState.troubleshooting
  behavior_in js AgentStatus.error input = OfficeBehaviorState.error_review
  behavior_in js AgentStatus.configuration_incomplete input = OfficeBehaviorState.configuring
  behavior_in js AgentStatus.offline input = OfficeBehaviorState.offline_away
  behavior_in js AgentStatus.unknown input = OfficeBehaviorState.unknown_neutral

  unfoldable pub resolve_office_behavior : Engine → BehaviorInput reals → OfficeBehaviorState
  unfolding behavior_in
  resolve_office_behavior js input = behavior_in js input.agent.runtime.state input

-- `resolveWorkerBehavior`
unfoldable pub resolve_worker_behavior : Engine → DelegationState → String → OfficeBehaviorState
unfolding presentation_seed
resolve_worker_behavior js DelegationState.running id =
    if eqb (presentation_seed js id % 2) 0
    then OfficeBehaviorState.work_reading
    else OfficeBehaviorState.work_typing
resolve_worker_behavior js DelegationState.queued id = OfficeBehaviorState.idle_seated
resolve_worker_behavior js DelegationState.claimed id = OfficeBehaviorState.idle_seated
resolve_worker_behavior js DelegationState.failed id = OfficeBehaviorState.error_review
resolve_worker_behavior js DelegationState.completed id = OfficeBehaviorState.break_standing
resolve_worker_behavior js DelegationState.cancelled id = OfficeBehaviorState.break_standing
resolve_worker_behavior js DelegationState.unknown id = OfficeBehaviorState.unknown_neutral

-- `qualityForWidth`
unfoldable pub quality_for_width : ℕ → AnimationQuality
quality_for_width width =
    if ltb width 640
    then AnimationQuality.lite
    else if ltb width 1100
    then AnimationQuality.balanced
    else AnimationQuality.full
