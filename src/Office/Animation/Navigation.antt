-- ===== src/Office/Animation/Navigation.antt =====
-- frontend/src/features/office/animation/navigation.ts
use virtual_office_sagara_ag.Prelude.{
  Bool, true, false, not, ◌&&◌, ◌||◌, List, [], ◌∷◌, ◌++◌, if◌then◌else◌,
}
use virtual_office_sagara_ag.Office.Types.{Point}
use virtual_office_sagara_ag.Office.Animation.Reals.{Reals, Position, whole}
use virtual_office_sagara_ag.Office.Animation.Behavior.{OfficeBehaviorState}
use virtual_office_sagara_ag.Office.Animation.Postures.{
  CharacterOrientation, CharacterPosture, drop_close, is_empty, is_seated, is_sitting_down,
  is_standing_up, last_few, last_or, reverse_onto, same_flag,
}

module _ (reals : Reals) where
  open reals use {Real, literal, add, sub, mul, div, min, max, hypot, lt, le}

  -- a desk's place
  abbrev pub position_of : Point → Position reals
  position_of p = record { x = whole reals p.x; y = whole reals p.y }

  abbrev pub at : Real → Real → Position reals
  at x y = record { x = x; y = y }

  -- `chairPosition`
  unfoldable pub chair_position : Position reals → Position reals
  chair_position desk = at desk.x (add desk.y (whole reals 27))

  -- the points of `deskNodes`
  unfoldable pub desk_nodes : Position reals → List (Position reals)
  unfolding chair_position
  desk_nodes desk =
      let chair = chair_position desk in
      let aisle = sub desk.x (whole reals 92) in
      let lane = add desk.y (whole reals 109) in
      chair ∷ at aisle chair.y ∷ at aisle lane ∷ at (whole reals 400) lane ∷ []

  -- the corridor and the break anchor of `OFFICE_ANCHORS`
  abbrev pub spine_anchor : Position reals
  spine_anchor = at (whole reals 400) (whole reals 520)

  abbrev pub break_anchor : Position reals
  break_anchor = at (whole reals 1285) (whole reals 535)

  unfoldable pub distance : Position reals → Position reals → Real
  distance a b = hypot (sub a.x b.x) (sub a.y b.y)

  -- `0.1`
  abbrev pub near : Real
  near = literal 1 10

  unfoldable pub same_point : Position reals → Position reals → Bool
  unfolding distance
  same_point a b = lt (distance a b) near

  unfoldable pub orientation_to : Position reals → Position reals → CharacterOrientation
  orientation_to a b =
      if lt b.y a.y
      then (if lt b.x a.x then CharacterOrientation.north_west else CharacterOrientation.north_east)
      else (if lt b.x a.x then CharacterOrientation.south_west else CharacterOrientation.south_east)

  -- `officeRoute`
  unfoldable pub office_route : Position reals → Position reals → List (Position reals)
  unfolding desk_nodes distance
  office_route desk destination =
      let points =
        desk_nodes desk ++ spine_anchor ∷ at destination.x (whole reals 520) ∷ destination ∷ [] in
      elim points [
        | [] ↦ []
        | p ∷ rest ↦ p ∷ drop_close (λ q before. lt near (distance q before)) p rest
      ]

  pub record OfficeMotion : Type 0 where
    pub position : Position reals
    pub orientation : CharacterOrientation
    pub posture : CharacterPosture
    pub transition_progress : Real
    pub route : List (Position reals)
    pub breadcrumbs : List (Position reals)
    pub target : Position reals
    pub seated_at_target : Bool

module _ {reals : Reals} where
  open reals use {Real, literal, add, sub, mul, div, min, max, lt, le}

  -- `createMotion`
  unfoldable pub create_motion : Position reals → Bool → OfficeMotion reals
  create_motion position is_seated_there = record {
    position = position;
    orientation = CharacterOrientation.north_east;
    posture = if is_seated_there then CharacterPosture.seated else CharacterPosture.standing;
    transition_progress = whole reals 1;
    route = [];
    breadcrumbs = position ∷ [];
    target = position;
    seated_at_target = is_seated_there;
  }

  -- `route.filter((p, i) => i !== 0 || !samePoint(p, motion.position))`
  abbrev remaining_route : Position reals → List (Position reals) → List (Position reals)
  remaining_route position [] = []
  remaining_route position (p ∷ rest) = if same_point reals p position then rest else p ∷ rest

  -- `requestMotion`
  unfoldable pub request_motion :
      OfficeMotion reals
      → List (Position reals)
      → (seated_at_target reduced_motion : Bool) → OfficeMotion reals
  unfolding create_motion same_point
  request_motion motion route seated_at_target reduced_motion =
      let target = last_or motion.position route in
      let remaining = remaining_route motion.position route in
      if same_point reals target motion.target && same_flag seated_at_target motion.seated_at_target
      then motion
      else if reduced_motion
      then create_motion target seated_at_target
      else record motion {
        target = target;
        seated_at_target = seated_at_target;
        route = remaining;
        posture =
            if is_seated motion.posture || is_sitting_down motion.posture
            then CharacterPosture.stand_up
            else if is_empty remaining
            then CharacterPosture.standing
            else CharacterPosture.walking;
        transition_progress = whole reals 0;
      }

  -- `returnRoute`
  unfoldable pub return_route : OfficeMotion reals → Position reals → List (Position reals)
  unfolding same_point
  return_route motion home =
      motion.position
      ∷ drop_close (λ p before. not (same_point reals p before)) motion.position
          (reverse_onto motion.breadcrumbs (home ∷ []))

  -- the branch of `advanceMotion` for a posture between two others
  unfoldable pub advance_transition : Real → OfficeMotion reals → OfficeMotion reals
  advance_transition dt motion =
      let progress = min (whole reals 1) (add motion.transition_progress (div dt (literal 8 10))) in
      record motion {
        transition_progress = progress;
        posture =
            if lt progress (whole reals 1)
            then motion.posture
            else if is_sitting_down motion.posture
            then CharacterPosture.seated
            else if is_empty motion.route
            then CharacterPosture.standing
            else CharacterPosture.walking;
      }

  -- the branch for a route with a point `next` ahead
  unfoldable pub advance_along :
      Real → Position reals → List (Position reals) → OfficeMotion reals → OfficeMotion reals
  unfolding distance orientation_to
  advance_along dt next rest motion =
      let length_ahead = distance reals motion.position next in
      let step = mul (whole reals 105) dt in
      let arrived = le length_ahead step in
      let route = if arrived then rest else next ∷ rest in
      record motion {
        position =
            if arrived
            then next
            else at reals
                (add motion.position.x (mul (div (sub next.x motion.position.x) length_ahead) step))
                (add motion.position.y
                  (mul (div (sub next.y motion.position.y) length_ahead) step));
        route = route;
        orientation = orientation_to reals motion.position next;
        posture =
            if is_empty route
            then (if motion.seated_at_target
                then CharacterPosture.sit_down
                else CharacterPosture.standing)
            else CharacterPosture.walking;
        transition_progress = if is_empty route then whole reals 0 else whole reals 1;
        breadcrumbs =
            if arrived then last_few 24 (motion.breadcrumbs ++ next ∷ []) else motion.breadcrumbs;
      }

  -- `advanceMotion`
  unfoldable pub advance_motion : OfficeMotion reals → Real → OfficeMotion reals
  unfolding advance_transition advance_along
  advance_motion motion seconds =
      let dt = max (whole reals 0) (min seconds (literal 1 10)) in
      if is_standing_up motion.posture || is_sitting_down motion.posture
      then advance_transition dt motion
      else elim motion.route [
        | [] ↦
            if motion.seated_at_target && not (is_seated motion.posture)
            then record motion {
              posture = CharacterPosture.sit_down;
              transition_progress = whole reals 0;
            }
            else motion
        | next ∷ rest ↦ advance_along dt next rest motion
      ]

-- `['OFFLINE_AWAY', …].includes(resolved)`
abbrev pub overrides_motion : OfficeBehaviorState → Bool
overrides_motion OfficeBehaviorState.offline_away = true
overrides_motion OfficeBehaviorState.error_review = true
overrides_motion OfficeBehaviorState.unknown_neutral = true
overrides_motion OfficeBehaviorState.waiting_approval = true
overrides_motion OfficeBehaviorState.troubleshooting = true
overrides_motion OfficeBehaviorState.configuring = true
overrides_motion _ = false

-- `visibleBehavior`, on the posture of the motion
unfoldable pub visible_behavior : OfficeBehaviorState → CharacterPosture → OfficeBehaviorState
visible_behavior resolved posture = if overrides_motion resolved then resolved else elim posture [
  | CharacterPosture.walking ↦ OfficeBehaviorState.walking
  | CharacterPosture.stand_up ↦ OfficeBehaviorState.break_standing
  | CharacterPosture.sit_down ↦ OfficeBehaviorState.break_standing
  | _ ↦ resolved
]
