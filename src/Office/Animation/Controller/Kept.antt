-- ===== src/Office/Animation/Controller/Kept.antt =====
-- What the steps of a character leave alone.
use virtual_office_sagara_ag.Prelude.{
  ◌≡◌, refl, sym, ap, ◌∙◌, String, Bool, some, List, [], ◌∷◌, ◌==◌, if◌then◌else◌, if_both,
  Bool-cases, Option-cases, inl, inr, true→eq,
}
use virtual_office_sagara_ag.Prelude.JsMap
use virtual_office_sagara_ag.Prelude.JsMap.{Map}
use virtual_office_sagara_ag.Engine.{Engine}
use virtual_office_sagara_ag.Office.Types.{OfficeDeskProjection, OfficeWorkerProjection}
use virtual_office_sagara_ag.Office.Animation.Reals.{Reals, Position}
use virtual_office_sagara_ag.Office.Animation.Behavior.{OfficeBehaviorState}
use virtual_office_sagara_ag.Office.Animation.Navigation.{chair_position, position_of}
use virtual_office_sagara_ag.Office.Animation.Controller.{
  agent_key, worker_key, OfficeCharacterProjection, Frame, prior_of, reach, advance,
}
use virtual_office_sagara_ag.Office.Animation.Controller.Desks.{
  seated_character, set_out, turn_back, stay_home, come_home, pose, step_desk, behavior_at,
}
use virtual_office_sagara_ag.Office.Animation.Controller.Workers.{
  send_worker, recall_worker, move_worker, settle_worker, step_worker,
}
use virtual_office_sagara_ag.Office.Animation.Controller.Exits.{start_leaving}

module _ (reals : Reals) (js : Engine) (frame : Frame reals) where
  open frame use {scene, settings}

  abbrev Character : Type 0
  Character = OfficeCharacterProjection reals

  -- What a change leaves alone: the id, the agent, the worker and the place of the desk.
  pub record Same (c d : Character) : Type 0 where
    pub id : d.id ≡ c.id
    pub agent_id : d.agent_id ≡ c.agent_id
    pub worker : d.worker ≡ c.worker
    pub desk_position : d.desk_position ≡ c.desk_position

  same : (c : Character) → Same c c
  same c = record { id = refl; agent_id = refl; worker = refl; desk_position = refl }

  Same-trans : (c d e : Character) → Same c d → Same d e → Same c e
  Same-trans c d e p q = record {
    id = q.id ∙ p.id;
    agent_id = q.agent_id ∙ p.agent_id;
    worker = q.worker ∙ p.worker;
    desk_position = q.desk_position ∙ p.desk_position;
  }

  unless_changed :
      (test : Bool) (c d : Character)
      → d.id ≡ c.id
      → d.agent_id ≡ c.agent_id
      → d.worker ≡ c.worker
      → d.desk_position ≡ c.desk_position
      → Same c (if test then d else c)
  unless_changed test c d i a w p =
      if_both (Same c) test (record { id = i; agent_id = a; worker = w; desk_position = p })
        (same c)

  set_out-Same :
      (desk : OfficeDeskProjection) (c : Character) → Same c (set_out reals js frame desk c)
  unfolding set_out
  set_out-Same desk c = unless_changed _ c _ refl refl refl refl

  turn_back-Same :
      (chair : Position reals) (c : Character) → Same c (turn_back reals js frame chair c)
  unfolding turn_back
  turn_back-Same chair c = unless_changed _ c _ refl refl refl refl

  stay_home-Same :
      (chair : Position reals) (c : Character) → Same c (stay_home reals js frame chair c)
  unfolding stay_home
  stay_home-Same chair c = unless_changed _ c _ refl refl refl refl

  reach-Same : (c : Character) → Same c (reach reals js frame c)
  unfolding reach
  reach-Same c = unless_changed _ c _ refl refl refl refl

  come_home-Same :
      (chair : Position reals) (c : Character) → Same c (come_home reals js frame chair c)
  unfolding come_home
  come_home-Same chair c = unless_changed _ c _ refl refl refl refl

  pose-Same : (c : Character) → Same c (pose reals js frame c)
  unfolding pose
  pose-Same c = unless_changed _ c _ refl refl refl refl

  send_worker-Same :
      (w : OfficeWorkerProjection) (c : Character) → Same c (send_worker reals js frame w c)
  unfolding send_worker
  send_worker-Same w c = unless_changed _ c _ refl refl refl refl

  recall_worker-Same :
      (w : OfficeWorkerProjection) (c : Character) → Same c (recall_worker reals js frame w c)
  unfolding recall_worker
  recall_worker-Same w c = unless_changed _ c _ refl refl refl refl

  move_worker-id : (c : Character) → (move_worker reals js frame c).id ≡ c.id
  unfolding move_worker
  move_worker-id c = refl

  settle_worker-Same : (c : Character) → Same c (settle_worker reals js frame c)
  unfolding settle_worker
  settle_worker-Same c = unless_changed _ c _ refl refl refl refl

  pub start_leaving-Same : (c : Character) → Same c (start_leaving reals js frame c)
  unfolding start_leaving
  start_leaving-Same c =
      if_both (Same c) _ (same c)
        (record { id = refl; agent_id = refl; worker = refl; desk_position = refl })

  -- The characters of before are found under their ids.
  abbrev pub IsKeyed : Map Character → Type 0
  IsKeyed m = (k : String) (c : Character) → JsMap.get m k ≡ some c → c.id ≡ k

  set-IsKeyed : (m : Map Character) (c : Character) → IsKeyed m → IsKeyed (JsMap.set m c.id c)
  set-IsKeyed m c keyed k d found = elim (Bool-cases (c.id == k)) [
    | inl e ↦
        let f : some c ≡ some d = sym (JsMap.get-set m c.id c k ∙ rw e refl) ∙ found in
        let same_character : c ≡ d = cc in ap (λ x. x.id) (sym same_character) ∙ true→eq c.id k e
    | inr e ↦ keyed k d (sym (JsMap.get-set m c.id c k ∙ rw e refl) ∙ found)
  ]

  pub prior_of-IsKeyed :
      (previous : List Character) (m : Map Character)
      → IsKeyed m
      → IsKeyed (prior_of reals js previous m)
  unfolding prior_of
  prior_of-IsKeyed [] m keyed = keyed
  prior_of-IsKeyed (c ∷ rest) m keyed = prior_of-IsKeyed rest _ (set-IsKeyed m c keyed)

  seated_character-id :
      (prior : Map Character) (desk : OfficeDeskProjection) (b : OfficeBehaviorState)
      → IsKeyed prior
      → (seated_character reals js frame prior desk b).id ≡ agent_key desk.agent_id
  unfolding seated_character
  seated_character-id prior desk b keyed =
      elim (Option-cases (JsMap.get prior (agent_key desk.agent_id))) [
        | inl absent ↦ rw absent refl
        | inr (c, found) ↦ rw found (keyed (agent_key desk.agent_id) c found)
      ]

  -- `step_desk` after the character is found, where it may move.
  abbrev moved_desk : OfficeDeskProjection → Character → Character
  moved_desk desk actor =
      let chair = chair_position reals (position_of reals desk.position) in
      let started =
        stay_home reals js frame chair
          (turn_back reals js frame chair (set_out reals js frame desk actor)) in
      record started { motion = advance reals js frame (agent_key desk.agent_id) started.motion }

  moved_desk-id : (desk : OfficeDeskProjection) (c : Character) → (moved_desk desk c).id ≡ c.id
  moved_desk-id desk c =
      let chair = chair_position reals (position_of reals desk.position) in
      let out = set_out reals js frame desk c in
      let back = turn_back reals js frame chair out in
      (stay_home-Same chair back).id ∙ ((turn_back-Same chair out).id ∙ (set_out-Same desk c).id)

  pub step_desk-id :
      (prior : Map Character) (desk : OfficeDeskProjection)
      → IsKeyed prior
      → (step_desk reals js frame prior desk).id ≡ agent_key desk.agent_id
  unfolding step_desk
  step_desk-id prior desk keyed =
      let chair = chair_position reals (position_of reals desk.position) in
      let actor = seated_character reals js frame prior desk (behavior_at reals js frame desk) in
      let reached = reach reals js frame (moved_desk desk actor) in
      let seated_id = seated_character-id prior desk (behavior_at reals js frame desk) keyed in
      if_both (λ (x : Character). x.id ≡ agent_key desk.agent_id) _ seated_id
        ((pose-Same (come_home reals js frame chair reached)).id
          ∙ ((come_home-Same chair reached).id
              ∙ ((reach-Same (moved_desk desk actor)).id ∙ (moved_desk-id desk actor ∙ seated_id))))

  moved_worker-id :
      (w : OfficeWorkerProjection) (c : Character)
      → (settle_worker reals js frame (
          reach reals js frame (
            move_worker reals js frame
              (recall_worker reals js frame w (send_worker reals js frame w c))))).id
        ≡ c.id
  moved_worker-id w c =
      let sent = send_worker reals js frame w c in
      let recalled = recall_worker reals js frame w sent in
      let moved = move_worker reals js frame recalled in
      (settle_worker-Same (reach reals js frame moved)).id
      ∙ ((reach-Same moved).id
          ∙ (move_worker-id recalled
              ∙ ((recall_worker-Same w sent).id ∙ (send_worker-Same w c).id)))

  pub step_worker-id :
      (prior : Map Character) (worker : OfficeWorkerProjection)
      → (step_worker reals js frame prior worker).id ≡ worker_key worker.delegation_id
  unfolding step_worker
  step_worker-id prior worker = moved_worker-id worker _
