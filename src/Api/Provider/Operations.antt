-- ===== src/Api/Provider/Operations.antt =====
-- The operations of the provider that write, as one type: what they do to the state, and what they throw.
pub mod Failures
pub mod Kept
pub mod History
pub mod States
use virtual_office_sagara_ag.Prelude.{String, Option, none, some, List, [], ◌∷◌}
use virtual_office_sagara_ag.Domain.Task.{CreateTaskInput, UpdateTaskInput}
use virtual_office_sagara_ag.Domain.Approval.{ApprovalDecisionInput}
use virtual_office_sagara_ag.Api.Http.{Thrown, Result}
use virtual_office_sagara_ag.Api.Provider.{ProviderState, Instant, Setting}
use virtual_office_sagara_ag.Api.Provider.Tasks.{
  create_task, update_task, dispatch_task, delete_task, cancel_task,
}
use virtual_office_sagara_ag.Api.Provider.Approvals.{approve_action, reject_action}

-- `uuid` is what `crypto.randomUUID()` gives to the call.
pub data Operation : Type 0 where
  create : (now : Instant) (uuid : String) → CreateTaskInput → Operation
  update : (now : Instant) (id : String) → UpdateTaskInput → Operation
  dispatch : (now : Instant) (uuid id : String) → Operation
  delete cancel : (id : String) → Operation
  approve : (now : Instant) (uuid id : String) → Option ApprovalDecisionInput → Operation
  reject : (now : Instant) (uuid id : String) → ApprovalDecisionInput → Operation

abbrev pub thrown_by {ℓ κ} : {J : Type ℓ} {A : Type κ} → Result J A → Option (Thrown J)
thrown_by (Result.ok a) = none
thrown_by (Result.thrown e) = some e

-- how an operation leaves the state, and what it throws
abbrev pub ended {ℓ κ} :
    {J : Type ℓ} {A : Type κ} → ProviderState × Result J A → ProviderState × Option (Thrown J)
ended (st, r) = (st, thrown_by r)

module _ (setting : Setting) where
  open setting use {Json}

  abbrev pub perform : Operation → ProviderState → ProviderState × Option (Thrown Json)
  perform (Operation.create now uuid input) st = ended (create_task setting now uuid input st)
  perform (Operation.update now id input) st = ended (update_task setting now id input st)
  perform (Operation.dispatch now uuid id) st = ended (dispatch_task setting now uuid id st)
  perform (Operation.delete id) st = ended (delete_task setting id st)
  perform (Operation.cancel id) st = ended (cancel_task setting id st)
  perform (Operation.approve now uuid id input) st =
      ended (approve_action setting now uuid id input st)
  perform (Operation.reject now uuid id input) st =
      ended (reject_action setting now uuid id input st)

  -- The state after operations, one after the other, whatever they throw.
  pub perform_all : List Operation → ProviderState → ProviderState
  perform_all [] st = st
  perform_all (op ∷ rest) st = perform_all rest (perform op st).0
