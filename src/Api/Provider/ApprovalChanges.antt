-- ===== src/Api/Provider/ApprovalChanges.antt =====
-- frontend/src/api/provider.ts: what a decision makes of an approval and of its task.
use virtual_office_sagara_ag.Prelude.{
  String, Option, none, some, List, [], ◌∷◌, ◌++◌, ◌==◌, if◌then◌else◌, or_else, or_text,
  update_first, append_text,
}
use virtual_office_sagara_ag.Domain.Task.{TaskState, TaskProjection, is_awaiting_approval}
use virtual_office_sagara_ag.Domain.Approval.{ApprovalState, ApprovalProjection}
use virtual_office_sagara_ag.Api.Provider.{Instant}
use virtual_office_sagara_ag.Api.Provider.TaskChanges.{event, has_id}

-- an approval with a decision and one more entry in its audit
abbrev pub decide :
    (state : ApprovalState)
    → (now reason stage note : String) → ApprovalProjection
    → ApprovalProjection
decide state now reason stage note current = record current {
  state = state;
  decision = some (record {
    decided_at = some now;
    decision_maker = some "Operator (Current)";
    reason = some reason;
  });
  audit = some (
      or_else current.audit []
      ++ record {
        stage = stage;
        timestamp = now;
        actor = some "Operator (Current)";
        note = some note;
      }
        ∷ []);
}

unfoldable pub approved : Instant → Option String → ApprovalProjection → ApprovalProjection
approved now reason =
    decide ApprovalState.approved now.iso (or_text reason "Approved by human operator") "Approved"
      (or_text reason "Action authorized by human operator")

unfoldable pub rejected : Instant → Option String → ApprovalProjection → ApprovalProjection
rejected now reason =
    decide ApprovalState.rejected now.iso (or_text reason "Rejected by human operator") "Rejected"
      (or_text reason "Action denied by human operator")

-- The cross-update of a task that waits; another task stays.
unfoldable pub resumed : Instant → String → TaskProjection → TaskProjection
resumed now approval_id task =
    if is_awaiting_approval task.state
    then record task {
      state = TaskState.running;
      updated_at = some now.iso;
      timeline = some (
          or_else task.timeline []
          ++ event (append_text "evt-" (append_text now.millis "-appr-res")) "APPROVAL_RESOLVED"
              now.iso "Operator (Current)"
              (append_text "Approval "
                (append_text approval_id " approved. Autonomous execution resumed."))
            ∷ []);
    }
    else task

unfoldable pub stopped : Instant → String → Option String → TaskProjection → TaskProjection
stopped now approval_id reason task =
    if is_awaiting_approval task.state
    then record task {
      state = TaskState.blocked;
      updated_at = some now.iso;
      failure = some (record {
        code = some "APPROVAL_REJECTED";
        message = some (append_text "Action rejected by operator: " (or_text reason "Denied"));
        stage = some "Approval Gate";
      });
      timeline = some (
          or_else task.timeline []
          ++ event (append_text "evt-" (append_text now.millis "-appr-rej")) "APPROVAL_RESOLVED"
              now.iso "Operator (Current)"
              (append_text "Approval " (
                append_text approval_id
                  (append_text " rejected: " (or_text reason "No reason provided"))))
            ∷ []);
    }
    else task

-- `if (current.taskId)`: the first task with that id is updated
unfoldable pub update_related :
    (TaskProjection → TaskProjection) → Option String → List TaskProjection → List TaskProjection
update_related f none tasks = tasks
update_related f (some id) tasks = if id == "" then tasks else update_first (has_id id) f tasks
