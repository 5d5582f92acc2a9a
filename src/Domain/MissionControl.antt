-- ===== src/Domain/MissionControl.antt =====
-- frontend/src/types/mission-control.ts. A record of unknown values is carried as its text, and the
-- recent activity, which the modelled code only copies, by its event ids.
use virtual_office_sagara_ag.Prelude.{ℕ, String, Bool, true, false, Option, List}

pub data GatewayHealth : Type 0 where
  healthy degraded error offline unknown : GatewayHealth

pub data AttentionType : Type 0 where
  task approval agent skill runtime governance system error dependency : AttentionType
  configuration capability offline budget : AttentionType

pub data AttentionSeverity : Type 0 where
  critical high medium low : AttentionSeverity

abbrev pub is_critical : AttentionSeverity → Bool
is_critical AttentionSeverity.critical = true
is_critical _ = false

abbrev pub is_high : AttentionSeverity → Bool
is_high AttentionSeverity.high = true
is_high _ = false

pub record AttentionItem : Type 0 where
  pub id : String
  pub type : AttentionType
  pub severity : AttentionSeverity
  pub title : String
  pub description : String
  pub timestamp : Option String
  pub created_at : String
  pub entity_type : Option String
  pub entity_id : Option String
  pub entity_name : Option String
  pub action_label : Option String
  pub metadata : Option String

pub record GatewayPulse : Type 0 where
  pub status : GatewayHealth
  pub detail : String

pub record ProfilesPulse : Type 0 where
  pub registered : ℕ
  pub enabled : ℕ
  pub incomplete : ℕ

pub record ActiveAgentsPulse : Type 0 where
  pub active : ℕ
  pub enabled_total : ℕ

pub record SessionsPulse : Type 0 where
  pub active : ℕ
  pub total_agents : ℕ

pub record SkillsPulse : Type 0 where
  pub healthy : ℕ
  pub degraded : ℕ
  pub missing : ℕ

pub record AttentionPulse : Type 0 where
  pub count : ℕ
  pub critical_count : ℕ
  pub high_count : ℕ

pub record SystemPulseData : Type 0 where
  pub gateway : GatewayPulse
  pub profiles : ProfilesPulse
  pub active_agents : ActiveAgentsPulse
  pub sessions : SessionsPulse
  pub skills : SkillsPulse
  pub attention : AttentionPulse

pub record MissionControlSnapshot : Type 0 where
  pub is_mock : Bool
  pub timestamp : String
  pub pulse : SystemPulseData
  pub attention_queue : List AttentionItem
  pub recent_activity : List String
