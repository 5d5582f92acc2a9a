-- ===== src/Tests/Provider.antt =====
-- The client and the provider at concrete inputs.
use virtual_office_sagara_ag.Prelude.{
  ℕ, ◌≡◌, refl, String, true, false, none, some, List, [], ◌∷◌, filter, or_else, false→ne,
}
use virtual_office_sagara_ag.Prelude.Pointwise.{Kept, Pointwise}
use virtual_office_sagara_ag.Domain.Task.{
  TaskState, TaskPriority, TaskProjection, CreateTaskInput, TaskQuery,
}
use virtual_office_sagara_ag.Domain.Approval.{
  ApprovalState, ApprovalRisk, ApprovalProjection, ApprovalDecisionInput,
}
use virtual_office_sagara_ag.Mapper.Task.{spell_state}
use virtual_office_sagara_ag.Api.Client.{build_request, request, get_options, body_used_message}
use virtual_office_sagara_ag.Api.Http.{
  ErrorData, Thrown, Result, Body, Response, Outcome, Request, ApiClient, RequestOptions,
}
use virtual_office_sagara_ag.Api.Client.Outcomes.{
  IsFaithful, connection_failed, request-IsFaithful, request-status_lost,
}
use virtual_office_sagara_ag.Api.Provider.{Sent, is_mock_mode, ProviderState, Instant, Setting}
use virtual_office_sagara_ag.Api.Provider.Tasks.{
  get_tasks, dispatch_task, get_task_by_id, create_task,
}
use virtual_office_sagara_ag.Api.Provider.Approvals.{approve_action, reject_action}
use virtual_office_sagara_ag.Api.Provider.Operations.{Operation, perform, perform_all}
use virtual_office_sagara_ag.Api.Provider.Operations.Failures.{IsApiError, perform-error}
use virtual_office_sagara_ag.Api.Provider.Operations.History.{
  Continues, ContinuesApproval, perform_all-Continues,
}
use virtual_office_sagara_ag.Api.Provider.Operations.States.{IsLater, perform_all-IsLater}
use virtual_office_sagara_ag.Api.Provider.Decisions.{IsDecided, decisions-IsDecided}
use virtual_office_sagara_ag.Api.Provider.Queries.{fits, get_tasks-fits, get-create_task}
use virtual_office_sagara_ag.Tests.Samples.{plain, agent}
use virtual_office_sagara_ag.Tests.Scenes.{task, approval}

abbrev client : ApiClient
client = record { base_url = ""; default_credentials = none }

-- A server that answers with a page instead of JSON.
abbrev page : Response ℕ
page = record {
  status = 502;
  status_text = "Bad Gateway";
  body = Body.not_json "<html>" "Unexpected token";
  body_used = false;
}

abbrev broken_gateway : Request Sent → Outcome ℕ
broken_gateway r = Outcome.response page

abbrev query_text : List (String × String) → String
query_text entries = ""

abbrev options : RequestOptions Sent
options = get_options none

-- A server that refuses a request with JSON.
abbrev not_found : Request Sent → Outcome ℕ
not_found r =
    Outcome.response
      (record { status = 404; status_text = "Not Found"; body = Body.json 7; body_used = false })

request-IsFaithful_example :
    IsFaithful
      (not_found (build_request query_text client "/api" options))
      (request query_text (λ j. "") not_found client "/api" options)
request-IsFaithful_example = request-IsFaithful query_text (λ j. "") not_found client "/api" options

request-status_lost_example :
    request query_text (λ j. "") broken_gateway client "/api" options
    ≡ Result.thrown (Thrown.api_error (connection_failed body_used_message))
request-status_lost_example =
    request-status_lost query_text (λ j. "") broken_gateway client "/api" options page "<html>"
      "Unexpected token" refl refl refl

-- The provider in mock mode.
abbrev mock : Setting
mock = record {
  js = plain;
  environment = record { is_dev = true; raw_data_mode = some "mock" };
  fixtures = record { mock_agents = agent "lead" "lead" ∷ []; mock_delegations = [] };
  client = client;
  Json = ℕ;
  is_falsy = λ j. false;
  print = λ j. "";
  encode_query = query_text;
  fetch = broken_gateway;
  as_task = λ j. none;
  as_tasks = λ j. none;
  as_approval = λ j. none;
  as_approvals = λ j. none;
  as_agent = λ j. none;
  as_agents = λ j. none;
  as_delegation = λ j. none;
  as_delegations = λ j. none;
  as_success = λ j. none;
}

abbrev asked : ApprovalProjection
asked = record (approval "a1" "nine" ApprovalRisk.high) { task_id = some "t1" }

abbrev state : ProviderState
state = record {
  tasks_state = task "t1" TaskState.awaiting_approval ∷ task "t2" TaskState.running ∷ [];
  approvals_state = asked ∷ [];
}

abbrev now : Instant
now = record { iso = "ten"; millis = "12600000" }

abbrev no_reason : ApprovalDecisionInput
no_reason = record { reason = none }

decisions-IsDecided_example :
    IsDecided ApprovalState.approved TaskState.running "a1" asked state
      (approve_action mock now "u" "a1" none state).0
      (approve_action mock now "u" "a1" none state).1
    × IsDecided ApprovalState.rejected TaskState.blocked "a1" asked state
        (reject_action mock now "u" "a1" no_reason state).0
        (reject_action mock now "u" "a1" no_reason state).1
unfolding is_mock_mode
decisions-IsDecided_example =
    decisions-IsDecided mock now "u" "a1" asked state none no_reason refl
      (false→ne "a1" "appr-08" refl) refl

-- A decision, a dispatch that is refused, and a dispatch.
abbrev operations : List Operation
operations =
    Operation.approve now "u" "a1" none
    ∷ Operation.dispatch now "v" "t2"
    ∷ Operation.cancel "t1"
    ∷ []

abbrev already_running : Thrown ℕ
already_running = Thrown.api_error (record {
  status = 400;
  status_text = "Task t2 is already RUNNING";
  error_data = ErrorData.null_data;
})

perform-error_example :
    ((perform mock (Operation.dispatch now "v" "t2") state).0 ≡ state) × IsApiError already_running
unfolding dispatch_task spell_state
perform-error_example =
    perform-error mock (Operation.dispatch now "v" "t2") state already_running refl

perform_all-Continues_example :
    Kept Continues state.tasks_state (perform_all mock operations state).tasks_state
    × Pointwise ContinuesApproval state.approvals_state
        (perform_all mock operations state).approvals_state
perform_all-Continues_example = perform_all-Continues mock operations state

perform_all-IsLater_example :
    Kept IsLater state.tasks_state (perform_all mock operations state).tasks_state
perform_all-IsLater_example = perform_all-IsLater mock operations state (tt, (tt, (tt, tt)))

abbrev running_only : TaskQuery
running_only = record {
  search = some "t";
  state = some (some TaskState.running);
  priority = none;
  agent_id = some "lead";
  attention = none;
  skill = some "ALL";
}

get_tasks-fits_example : get_tasks mock (some running_only) state ≡ (
  state,
  Result.ok (filter (fits plain mock.fixtures.mock_agents running_only) state.tasks_state),
)
unfolding is_mock_mode
get_tasks-fits_example = get_tasks-fits mock state running_only refl

abbrev input : CreateTaskInput
input = record {
  title = "Report";
  description = none;
  priority = TaskPriority.high;
  state = none;
  assigned_agent_id = some "lead";
  requested_skills = some ("research" ∷ []);
  capability_requirements = none;
  due_at = none;
}

get-create_task_example :
    (t : TaskProjection) × ((create_task mock now "u" input state).1 ≡ Result.ok t)
    × ((get_task_by_id mock t.id (create_task mock now "u" input state).0).1 ≡ Result.ok (some t))
    × (t.state ≡ or_else input.state TaskState.draft)
unfolding is_mock_mode
get-create_task_example = get-create_task mock state now "u" input refl
