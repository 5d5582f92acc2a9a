-- ===== src/Mapper/Agent.antt =====
-- frontend/src/api/mappers/agent.mapper.ts
use mathlib.Core.Option
use virtual_office_sagara_ag.Prelude.{
  String, Option, none, some, [], ◌∷◌, map, if◌then◌else◌, or_text, truthy,
}
use virtual_office_sagara_ag.Engine.{Engine}
use virtual_office_sagara_ag.Domain.Agent.{
  AgentStatus, RuntimeConfidence, SkillHealthState, AgentSessionStatus, ConfigurationState,
  AgentSkillEvidence, AgentSessionItem, AgentDelegationItem, ProfileDefinition, AgentRuntime,
  AgentCapabilities, UsageMetric, AgentProjection,
}
use virtual_office_sagara_ag.Domain.Runtime.{DelegationState}
use virtual_office_sagara_ag.Dto.Agent.{
  AgentDefinitionDto, AgentRuntimeDto, AgentCapabilitiesDto, AgentUsageDto, AgentSkillEvidenceDto,
  AgentSessionItemDto, AgentDelegationItemDto, AgentDto,
}
use virtual_office_sagara_ag.Mapper.Common.{Spellings, map_unknown_enum, preserve_number}

abbrev pub allowed_agent_states : Spellings AgentStatus
allowed_agent_states =
    ("ACTIVE", AgentStatus.active)
    ∷ ("IDLE", AgentStatus.idle)
    ∷ ("RECENTLY_ACTIVE", AgentStatus.recently_active)
    ∷ ("AWAITING_APPROVAL", AgentStatus.awaiting_approval)
    ∷ ("DEGRADED", AgentStatus.degraded)
    ∷ ("ERROR", AgentStatus.error)
    ∷ ("OFFLINE", AgentStatus.offline)
    ∷ ("UNKNOWN", AgentStatus.unknown)
    ∷ ("CONFIGURATION_INCOMPLETE", AgentStatus.configuration_incomplete)
    ∷ []

abbrev pub allowed_confidence : Spellings RuntimeConfidence
allowed_confidence =
    ("CONFIRMED", RuntimeConfidence.confirmed)
    ∷ ("INFERRED", RuntimeConfidence.inferred)
    ∷ ("UNKNOWN", RuntimeConfidence.unknown)
    ∷ ("STALE", RuntimeConfidence.stale)
    ∷ []

abbrev pub allowed_delegation_states : Spellings DelegationState
allowed_delegation_states =
    ("QUEUED", DelegationState.queued)
    ∷ ("CLAIMED", DelegationState.claimed)
    ∷ ("RUNNING", DelegationState.running)
    ∷ ("COMPLETED", DelegationState.completed)
    ∷ ("FAILED", DelegationState.failed)
    ∷ ("CANCELLED", DelegationState.cancelled)
    ∷ ("UNKNOWN", DelegationState.unknown)
    ∷ []

abbrev pub allowed_configuration_states : Spellings ConfigurationState
allowed_configuration_states =
    ("COMPLETE", ConfigurationState.complete)
    ∷ ("INCOMPLETE", ConfigurationState.incomplete)
    ∷ ("DISABLED", ConfigurationState.disabled)
    ∷ []

abbrev pub allowed_skill_health : Spellings SkillHealthState
allowed_skill_health =
    ("HEALTHY", SkillHealthState.healthy)
    ∷ ("DEGRADED", SkillHealthState.degraded)
    ∷ ("MISSING", SkillHealthState.missing)
    ∷ ("UNKNOWN", SkillHealthState.unknown)
    ∷ []

abbrev pub allowed_session_status : Spellings AgentSessionStatus
allowed_session_status =
    ("active", AgentSessionStatus.active)
    ∷ ("completed", AgentSessionStatus.completed)
    ∷ ("idle", AgentSessionStatus.idle)
    ∷ []

-- `configuration_state ? mapUnknownEnum(…) : undefined`
map_configuration_state : Engine → Option String → Option ConfigurationState
map_configuration_state js state =
    if truthy state
    then some (map_unknown_enum js state allowed_configuration_states ConfigurationState.complete)
    else none

map_definition : Engine → String → AgentDefinitionDto → ProfileDefinition
unfolding map_configuration_state
map_definition js dto_id d = record {
  id = some (or_text d.id dto_id);
  name = d.name;
  role = d.role;
  description = d.description;
  enabled = d.enabled;
  memory_namespace = d.memory_namespace;
  allowed_skills = none;
  configuration_state = map_configuration_state js d.configuration_state;
  category = none;
  assigned_agents_count = none;
  tags = none;
  is_system = none;
}

pub map_runtime : Engine → AgentRuntimeDto → AgentRuntime
map_runtime js r = record {
  state = map_unknown_enum js (some r.state) allowed_agent_states AgentStatus.unknown;
  confidence = map_unknown_enum js (some r.confidence) allowed_confidence RuntimeConfidence.unknown;
  last_activity_at = r.last_activity_at;
  session_count = preserve_number r.session_count;
  active_delegations = preserve_number r.active_delegations;
  current_session_id = r.current_session_id;
  current_task_id = r.current_task_id;
  model = r.model;
  current_activity = r.current_activity;
}

map_capabilities : AgentCapabilitiesDto → AgentCapabilities
map_capabilities c = record {
  total = preserve_number c.total;
  healthy = preserve_number c.healthy;
  degraded = preserve_number c.degraded;
  missing = preserve_number c.missing;
}

map_usage : AgentUsageDto → UsageMetric
map_usage u = record {
  input_tokens = preserve_number u.input_tokens;
  output_tokens = preserve_number u.output_tokens;
  cache_read_tokens = preserve_number u.cache_read_tokens;
  cache_write_tokens = preserve_number u.cache_write_tokens;
  reasoning_tokens = preserve_number u.reasoning_tokens;
  api_calls = preserve_number u.api_calls;
  estimated_cost_usd = preserve_number u.estimated_cost_usd;
  actual_cost_usd = preserve_number u.actual_cost_usd;
}

map_skill : Engine → AgentSkillEvidenceDto → AgentSkillEvidence
map_skill js s = record {
  id = s.id;
  name = s.name;
  category = s.category;
  health = map_unknown_enum js (some s.health) allowed_skill_health SkillHealthState.unknown;
  evidence = or_text (some s.evidence) "Registered";
  description = s.description;
}

map_session : Engine → AgentSessionItemDto → AgentSessionItem
map_session js s = record {
  id = s.id;
  source = s.source;
  model = s.model;
  started_at = s.started_at;
  last_activity_at = s.last_activity_at;
  message_count = s.message_count;
  status = map_unknown_enum js (some s.status) allowed_session_status AgentSessionStatus.active;
}

map_delegation_item : Engine → AgentDelegationItemDto → AgentDelegationItem
map_delegation_item js d = record {
  id = d.id;
  task_title = d.task_title;
  worker_pid = d.worker_pid;
  state = map_unknown_enum js (some d.state) allowed_delegation_states DelegationState.unknown;
  started_at = d.started_at;
  completed_at = d.completed_at;
  summary = d.summary;
}

-- `mapAgentDtoToDomain`
unfoldable pub map_agent_dto_to_domain : Engine → AgentDto → AgentProjection
unfolding map_definition map_runtime map_capabilities map_usage map_skill map_session
    map_delegation_item
map_agent_dto_to_domain js dto = record {
  id = dto.id;
  definition = map_definition js dto.id dto.definition;
  runtime = map_runtime js dto.runtime;
  capabilities = map_capabilities dto.capabilities;
  usage = Option.map map_usage dto.usage;
  skills = Option.map (map (map_skill js)) dto.skills;
  sessions = Option.map (map (map_session js)) dto.sessions;
  delegations = Option.map (map (map_delegation_item js)) dto.delegations;
}
