-- ===== src/Office/Rooms.antt =====
-- office-layout-engine.ts: the avatar of an agent, and which room an agent belongs to.
use virtual_office_sagara_ag.Prelude.{
  ℕ, ◌+◌, ◌-◌, ◌*◌, ◌%◌, ◌^◌, String, Bool, false, ◌||◌, Option, none, some, List, [], ◌∷◌, ◌++◌,
  ◌==◌, if◌then◌else◌, or_else, find, any, ltb, eqb, is_text,
}
use virtual_office_sagara_ag.Prelude.Texts.{text_includes}
use virtual_office_sagara_ag.Prelude.Sort.{sort}
use virtual_office_sagara_ag.Engine.{Engine}
use virtual_office_sagara_ag.Domain.Agent.{AgentProjection}
use virtual_office_sagara_ag.Office.Types.{
  OfficeZoneType, is_zone, Assignment, OfficePresentationConfig,
}

-- one turn of the hash loop: `(hash << 5) - hash + code`, wrapped to 32 bits (two's complement)
unfoldable pub hash_step : ℕ → ℕ → ℕ
hash_step hash code = (hash * 31 + code) % 2 ^ 32

unfoldable pub hash_codes : ℕ → List ℕ → ℕ
unfolding hash_step
hash_codes hash [] = hash
hash_codes hash (code ∷ rest) = hash_codes (hash_step hash code) rest

-- `Math.abs` of the signed reading of a 32-bit word
unfoldable pub abs_int32 : ℕ → ℕ
abs_int32 h = if ltb h (2 ^ 31) then h else 2 ^ 32 - h

abbrev pub variant_at : ℕ → String
variant_at i =
    if eqb i 0
    then "variant-lead-engineer"
    else if eqb i 1
    then "variant-sentinel-shield"
    else if eqb i 2
    then "variant-gatekeeper-lock"
    else if eqb i 3
    then "variant-stream-matrix"
    else if eqb i 4
    then "variant-dispatcher-clock"
    else "variant-relay-node"

-- `getDeterministicAvatarVariant`
unfoldable pub get_deterministic_avatar_variant : Engine → String → String
unfolding hash_codes abs_int32
get_deterministic_avatar_variant js id =
    variant_at (abs_int32 (hash_codes 0 (js.code_units id)) % 6)

-- `agent.definition.role?.toLowerCase().includes(t)`
abbrev pub role_includes : Engine → AgentProjection → String → Bool
role_includes js a t = elim a.definition.role [
  | none ↦ false
  | some role ↦ text_includes (js.to_lower_case role) t
]

abbrev pub is_orchestrator : Engine → AgentProjection → Bool
is_orchestrator js a =
    role_includes js a "orchestrat"
    || (role_includes js a "lead"
        || (role_includes js a "architect"
            || text_includes (js.to_lower_case a.definition.name) "lead"))

abbrev pub prefers_zone : OfficeZoneType → Assignment → Bool
prefers_zone z a = elim a.preferred_zone [ none ↦ false | some p ↦ is_zone p z ]

-- the id of the agent of the command room
unfoldable pub command_agent_id :
    Engine → OfficePresentationConfig → List AgentProjection → Option String
command_agent_id js config agents =
    let by_role = elim (find (is_orchestrator js) agents) as (λ _. Option String) [
      | none ↦ none
      | some a ↦ some a.id
    ] in
    elim (find (prefers_zone OfficeZoneType.command) (or_else config.assignments [])) [
      | none ↦ by_role
      | some assignment ↦
          if any (λ a. a.id == assignment.agent_id) agents
          then some assignment.agent_id
          else by_role
    ]

-- The zone by the words of role, name and description.
unfoldable pub zone_by_words : Engine → AgentProjection → OfficeZoneType
zone_by_words js agent =
    let role = js.to_lower_case (or_else agent.definition.role "") in
    let name = js.to_lower_case agent.definition.name in
    let desc = js.to_lower_case (or_else agent.definition.description "") in
    if text_includes role "market"
      || (text_includes name "growth"
          || (text_includes desc "campaign" || text_includes role "marketing"))
    then OfficeZoneType.marketing_zone
    else if text_includes role "career"
        || (text_includes role "talent"
            || (text_includes role "people"
                || (text_includes role "recruit"
                    || (text_includes role "coach"
                        || (text_includes name "career" || text_includes name "talent")))))
    then OfficeZoneType.career_zone
    else OfficeZoneType.dev_zone

-- `resolveAgentZone`
unfoldable pub resolve_agent_zone :
    Engine → OfficePresentationConfig → AgentProjection → OfficeZoneType
unfolding zone_by_words
resolve_agent_zone js config agent =
    elim (find (λ a. a.agent_id == agent.id) (or_else config.assignments [])) [
      | none ↦ zone_by_words js agent
      | some assigned ↦ elim assigned.preferred_zone [
        | none ↦ zone_by_words js agent
        | some z ↦ if is_zone z OfficeZoneType.command then zone_by_words js agent else z
      ]
    ]

-- The agents by room; the last agent with the id of the command room takes it.
pub record Rooms : Type 0 where
  pub command_agent : Option AgentProjection
  pub dev_agents : List AgentProjection
  pub career_agents : List AgentProjection
  pub marketing_agents : List AgentProjection

abbrev pub empty_rooms : Rooms
empty_rooms = record {
  command_agent = none;
  dev_agents = [];
  career_agents = [];
  marketing_agents = [];
}

-- a zone that is neither marketing nor career goes to the dev zone
abbrev pub push_agent : OfficeZoneType → AgentProjection → Rooms → Rooms
push_agent zone agent rooms =
    if is_zone zone OfficeZoneType.marketing_zone
    then record rooms { marketing_agents = rooms.marketing_agents ++ agent ∷ [] }
    else if is_zone zone OfficeZoneType.career_zone
    then record rooms { career_agents = rooms.career_agents ++ agent ∷ [] }
    else record rooms { dev_agents = rooms.dev_agents ++ agent ∷ [] }

-- `sortedAgents.forEach(…)`
unfoldable pub separate_agents :
    Engine → OfficePresentationConfig → Option String → List AgentProjection → Rooms → Rooms
separate_agents js config command_id [] rooms = rooms
separate_agents js config command_id (agent ∷ rest) rooms =
    separate_agents js config command_id rest (
      if is_text command_id agent.id
      then record rooms { command_agent = some agent }
      else push_agent (resolve_agent_zone js config agent) agent rooms)

-- `[...agents].sort((a, b) => a.id.localeCompare(b.id))`
abbrev pub sort_agents : Engine → List AgentProjection → List AgentProjection
sort_agents js agents = sort (λ a b. js.locale_le a.id b.id) agents
