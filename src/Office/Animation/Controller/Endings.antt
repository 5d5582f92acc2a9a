-- ===== src/Office/Animation/Controller/Endings.antt =====
-- The workers that are shown on their way out.
use virtual_office_sagara_ag.Prelude.{
  ◌≡◌, refl, sym, ap, ◌∙◌, Bool, true, false, not, Option, none, some, map, ◌||◌, ◌==◌,
  if◌then◌else◌, arith, includes, find, Option-cases, inl, inr,
}
use virtual_office_sagara_ag.Engine.{Engine}
use virtual_office_sagara_ag.Domain.Runtime.{DelegationProjection}
use virtual_office_sagara_ag.Office.Types.{OfficeWorkerProjection}
use virtual_office_sagara_ag.Office.Work.{is_active_delegation}
use virtual_office_sagara_ag.Office.Animation.Reals.{Reals}
use virtual_office_sagara_ag.Office.Animation.Behavior.{resolve_worker_behavior}
use virtual_office_sagara_ag.Office.Animation.Controller.{
  can_travel, is_lite, OfficeCharacterProjection, Frame,
}
use virtual_office_sagara_ag.Office.Animation.Controller.Exits.{
  leaving_record, with_state, renew, is_still_shown, step_leaving,
}
use virtual_office_sagara_ag.Office.Animation.Controller.Kept.{start_leaving-Same}

module _ (reals : Reals) (js : Engine) (frame : Frame reals) where
  open frame use {scene, settings}

  abbrev Character : Type 0
  Character = OfficeCharacterProjection reals

  -- The character belongs to a worker that the scene no longer shows; its delegation is over, which a
  -- record of the scene says, and it is shown with the state of that record; its agent has a desk; and
  -- characters may travel.
  pub record IsEnding (c : Character) : Type 0 where
    pub worker : OfficeWorkerProjection
    pub entry : DelegationProjection
    pub is_worker : c.worker ≡ some worker
    pub gone : includes (map (λ w. w.delegation_id) scene.workers) worker.delegation_id ≡ false
    pub at_desk : includes (map (λ d. d.agent_id) scene.desks) c.agent_id ≡ true
    pub recorded : find (λ d. d.id == worker.delegation_id) scene.delegation_records ≡ some entry
    pub over : is_active_delegation entry.state ≡ false
    pub shown : worker.state ≡ entry.state
    pub may_travel : can_travel settings ≡ true

  unless-some :
      (b : Bool) (o : Option DelegationProjection) (entry : DelegationProjection)
      → (if b then none else o) ≡ some entry
      → (b ≡ false) × (o ≡ some entry)
  unless-some true o entry h = cc
  unless-some false o entry h = (refl, h)

  -- The tests of `leaving_record`, and the record for a worker.
  abbrev stays_away : Character → OfficeWorkerProjection → Bool
  stays_away old worker =
      includes (map (λ w. w.delegation_id) scene.workers) worker.delegation_id
      || not (includes (map (λ d. d.agent_id) scene.desks) old.agent_id)

  abbrev stays_put : DelegationProjection → Bool
  stays_put entry =
      is_active_delegation entry.state || (settings.reduced_motion || is_lite settings.quality)

  abbrev record_of : Character → OfficeWorkerProjection → Option DelegationProjection
  record_of old worker =
      if stays_away old worker
      then none
      else elim (find (λ d. d.id == worker.delegation_id) scene.delegation_records) [
        | none ↦ none
        | some entry ↦ if stays_put entry then none else some entry
      ]

  record_of-IsEnding :
      (old c : Character) (w : OfficeWorkerProjection) (entry : DelegationProjection)
      → record_of old w ≡ some entry
      → c.agent_id ≡ old.agent_id
      → c.worker ≡ some (record w { state = entry.state })
      → IsEnding c
  record_of-IsEnding old c w entry h same_agent shown =
      let outer = unless-some (stays_away old w) _ entry h in
      elim (Option-cases (find (λ d. d.id == w.delegation_id) scene.delegation_records)) [
        | inl absent ↦ absurd (ground (arith, outer.1, absent))
        | inr (found, e) ↦
            let inner = unless-some (stays_put found) (some found) entry (
              ap
                (λ o. elim o as (λ _. Option DelegationProjection) [
                  | none ↦ none
                  | some entry ↦ if stays_put entry then none else some entry
                ])
                (sym e)
              ∙ outer.1) in
            let same_record : found ≡ entry = cc in
            record {
              worker = record w { state = entry.state };
              entry = entry;
              is_worker = shown;
              gone = ground (arith, outer.0);
              at_desk = rw same_agent (ground (arith, outer.0));
              recorded = e ∙ ap some same_record;
              over = rw (← same_record) (ground (arith, inner.0));
              shown = refl;
              may_travel = ground (arith, inner.0);
            }
      ]

  leaving_record-IsEnding :
      (old c : Character) (entry : DelegationProjection)
      → leaving_record reals js frame old ≡ some entry
      → c.agent_id ≡ old.agent_id
      → c.worker ≡ with_state reals js frame entry.state old.worker
      → IsEnding c
  unfolding leaving_record
  leaving_record-IsEnding old c entry h same_agent shown = elim (Option-cases old.worker) [
    | inl absent ↦ absurd (ground (arith, h, absent))
    | inr (w, e) ↦
        record_of-IsEnding old c w entry
          (ap
              (λ o. elim o as (λ _. Option DelegationProjection) [
                | none ↦ none
                | some w ↦ record_of old w
              ])
              (sym e)
            ∙ h)
          same_agent (shown ∙ ap (with_state reals js frame entry.state) e)
  ]

  if-some : (b : Bool) (c d : Character) → (if b then some c else none) ≡ some d → c ≡ d
  if-some true c d h = cc
  if-some false c d h = cc

  renew-Same :
      (old : Character) (entry : DelegationProjection)
      → ((renew reals js frame old entry).id ≡ old.id)
        × ((renew reals js frame old entry).agent_id ≡ old.agent_id)
        × ((renew reals js frame old entry).worker
            ≡ with_state reals js frame entry.state old.worker)
  unfolding renew
  renew-Same old entry =
      let changed = record old {
        worker = with_state reals js frame entry.state old.worker;
        behavior = resolve_worker_behavior js entry.state entry.id;
      } in
      let kept = start_leaving-Same reals js frame changed in (kept.id, kept.agent_id, kept.worker)

  pub step_leaving-IsEnding :
      (old actor : Character)
      → step_leaving reals js frame old ≡ some actor
      → (actor.id ≡ old.id) × IsEnding actor
  unfolding step_leaving
  step_leaving-IsEnding old actor h = elim (Option-cases (leaving_record reals js frame old)) [
    | inl absent ↦
        let impossible : ◌≡◌ {A = Option Character} none (some actor) = ap shown (sym absent) ∙ h in
        cc
    | inr (entry, e) ↦
        let actor' = renew reals js frame old entry in
        let same_actor : actor' ≡ actor =
          if-some (is_still_shown reals js frame actor') actor' actor (ap shown (sym e) ∙ h) in
        let kept = renew-Same old entry in
        rw (← same_actor) (kept.0, leaving_record-IsEnding old actor' entry e kept.1 kept.2)
  ]
    where
      shown : Option DelegationProjection → Option Character
      shown none = none
      shown (some entry) =
          if is_still_shown reals js frame (renew reals js frame old entry)
          then some (renew reals js frame old entry)
          else none
