-- ===== src/Api/Provider.antt =====
-- frontend/src/api/provider.ts: the two modes, the state of the mock mode, and how the API mode ends.
-- An operation is atomic: in mock mode nothing is awaited but the delay at its start.
pub mod Operations
pub mod Decisions
pub mod Queries
pub mod Reads
pub mod TaskFilters
pub mod TaskChanges
pub mod TaskMoves
pub mod ApprovalFilters
pub mod ApprovalChanges
pub mod Tasks
pub mod Approvals
use virtual_office_sagara_ag.Prelude.{
  ℕ, String, Bool, not, Option, none, some, List, [], ◌==◌, if◌then◌else◌, is_text,
}
use virtual_office_sagara_ag.Prelude.JsMap.{Map}
use virtual_office_sagara_ag.Engine.{Engine}
use virtual_office_sagara_ag.Domain.Agent.{AgentProjection}
use virtual_office_sagara_ag.Domain.Runtime.{DelegationProjection}
use virtual_office_sagara_ag.Domain.Task.{TaskProjection}
use virtual_office_sagara_ag.Domain.Approval.{ApprovalProjection}
use virtual_office_sagara_ag.Dto.Agent.{AgentDto}
use virtual_office_sagara_ag.Dto.Runtime.{DelegationDto}
use virtual_office_sagara_ag.Dto.Task.{TaskDto, CreateTaskDto, UpdateTaskDto}
use virtual_office_sagara_ag.Dto.Approval.{ApprovalDto, ApprovalDecisionInputDto}
use virtual_office_sagara_ag.Api.Client.{request}
use virtual_office_sagara_ag.Api.Http.{
  ApiClient, ApiError, ErrorData, Failure, Thrown, Result, Request, RequestOptions, Outcome,
}

-- the build's `DEV` and `VITE_DATA_MODE`
pub record Environment : Type 0 where
  pub is_dev : Bool
  pub raw_data_mode : Option String

-- `isMockMode`
unfoldable pub is_mock_mode : Environment → Bool
is_mock_mode env =
    if not env.is_dev
    then is_text env.raw_data_mode "mock_explicit_override_only"
    else is_text env.raw_data_mode "mock"

-- `tasksState` and `approvalsState`
pub record ProviderState : Type 0 where
  pub tasks_state : List TaskProjection
  pub approvals_state : List ApprovalProjection

-- the arrays of frontend/src/mocks that are only read
pub record Fixtures : Type 0 where
  pub mock_agents : List AgentProjection
  pub mock_delegations : List DelegationProjection

-- The instant at which an operation runs: `new Date().toISOString()` and `String(Date.now())`.
pub record Instant : Type 0 where
  pub iso : String
  pub millis : String

-- The values that the provider sends as JSON.
pub data Sent : Type 0 where
  create_task_body : CreateTaskDto → Sent
  update_task_body : UpdateTaskDto → Sent
  decision_body : ApprovalDecisionInputDto → Sent
  empty_object : Sent

-- What the provider's operations are given: the client with its `fetch`, the JSON values, and the
-- fixtures. `is_falsy` is what `dto ? … : null` tests. A function `as_…` reads JSON as a transfer object;
-- it gives `none` where the mapper throws on what it is given.
pub record Setting : Type 1 where
  pub js : Engine
  pub environment : Environment
  pub fixtures : Fixtures
  pub client : ApiClient
  pub Json : Type 0
  pub is_falsy : Json → Bool
  pub print : Json → String
  pub encode_query : List (String × String) → String
  pub fetch : Request Sent → Outcome Json
  pub as_task : Json → Option TaskDto
  pub as_tasks : Json → Option (List TaskDto)
  pub as_approval : Json → Option ApprovalDto
  pub as_approvals : Json → Option (List ApprovalDto)
  pub as_agent : Json → Option AgentDto
  pub as_agents : Json → Option (List AgentDto)
  pub as_delegation : Json → Option DelegationDto
  pub as_delegations : Json → Option (List DelegationDto)
  pub as_success : Json → Option Bool

module _ (setting : Setting) where
  open setting use {environment, client, Json, is_falsy, print, encode_query, fetch}

  -- `handleApiError`
  unfoldable pub handle_api_error {κ} : {A : Type κ} → Thrown Json → Result Json A
  handle_api_error (Thrown.api_error e) = Result.thrown (Thrown.api_error e)
  handle_api_error (Thrown.other f) = Result.thrown (
      Thrown.api_error (record {
        status = 503;
        status_text = "Mission Control telemetry unavailable.";
        error_data = ErrorData.original f;
      }))

  -- `new ApiError(status, text, null)`
  abbrev pub refuse {κ} : {A : Type κ} → ℕ → String → Result Json A
  refuse status text = Result.thrown (
      Thrown.api_error
        (record { status = status; status_text = text; error_data = ErrorData.null_data }))

  -- `apiClient.get`, `post`, `patch` or `delete`
  abbrev pub call : String → RequestOptions Sent → Result Json (Option Json)
  call endpoint options = request encode_query print fetch client endpoint options

  abbrev pub not_a_dto {κ} : {A : Type κ} → Result Json A
  not_a_dto = handle_api_error (Thrown.other (Failure.failure "TypeError"))

  -- The `try` and `catch` of an operation: the answer is read as a transfer object and mapped. Where
  -- it is none, the mapper throws a `TypeError`.
  unfoldable pub finish {ℓ κ} :
      {D : Type ℓ} {A : Type κ}
      → (Json → Option D)
      → (D → A)
      → Result Json (Option Json)
      → Result Json A
  unfolding handle_api_error
  finish as_dto mapper (Result.thrown e) = handle_api_error e
  finish as_dto mapper (Result.ok none) = not_a_dto
  finish as_dto mapper (Result.ok (some j)) = elim (as_dto j) [
    | none ↦ not_a_dto
    | some dto ↦ Result.ok (mapper dto)
  ]

  -- the same with `dto ? mapper(dto) : null`
  unfoldable pub finish_or_null {ℓ κ} :
      {D : Type ℓ} {A : Type κ}
      → (Json → Option D)
      → (D → A)
      → Result Json (Option Json)
      → Result Json (Option A)
  unfolding handle_api_error
  finish_or_null as_dto mapper (Result.thrown e) = handle_api_error e
  finish_or_null as_dto mapper (Result.ok none) = Result.ok none
  finish_or_null as_dto mapper (Result.ok (some j)) =
      if is_falsy j
      then Result.ok none
      else elim (as_dto j) [ none ↦ not_a_dto | some dto ↦ Result.ok (some (mapper dto)) ]

  -- the same where the answer is not looked at
  unfoldable pub finish_done : Result Json (Option Json) → Result Json Bool
  unfolding handle_api_error
  finish_done (Result.thrown e) = handle_api_error e
  finish_done (Result.ok _) = Result.ok virtual_office_sagara_ag.Prelude.true

  -- `isMockMode()`
  abbrev pub is_mock : Bool
  is_mock = is_mock_mode environment
