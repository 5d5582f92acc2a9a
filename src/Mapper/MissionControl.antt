-- ===== src/Mapper/MissionControl.antt =====
-- `mapAttentionItemDtoToDomain` of frontend/src/api/mappers/mission-control.mapper.ts
use virtual_office_sagara_ag.Prelude.{String, Option, none, some, [], ◌∷◌, or_text}
use virtual_office_sagara_ag.Engine.{Engine}
use virtual_office_sagara_ag.Domain.MissionControl.{AttentionType, AttentionSeverity, AttentionItem}
use virtual_office_sagara_ag.Dto.MissionControl.{AttentionItemDto}
use virtual_office_sagara_ag.Mapper.Common.{Spellings, map_unknown_enum}

abbrev pub allowed_attention_types : Spellings AttentionType
allowed_attention_types =
    ("APPROVAL", AttentionType.approval)
    ∷ ("ERROR", AttentionType.error)
    ∷ ("DEPENDENCY", AttentionType.dependency)
    ∷ ("CONFIGURATION", AttentionType.configuration)
    ∷ ("CAPABILITY", AttentionType.capability)
    ∷ ("OFFLINE", AttentionType.offline)
    ∷ ("BUDGET", AttentionType.budget)
    ∷ []

abbrev pub allowed_severities : Spellings AttentionSeverity
allowed_severities =
    ("critical", AttentionSeverity.critical)
    ∷ ("high", AttentionSeverity.high)
    ∷ ("medium", AttentionSeverity.medium)
    ∷ ("low", AttentionSeverity.low)
    ∷ []

-- `mapAttentionItemDtoToDomain`; `now` is `new Date().toISOString()`
unfoldable pub map_attention_item_dto_to_domain :
    Engine → String → Option AttentionItemDto → AttentionItem
map_attention_item_dto_to_domain js now none = record {
  id = "att-unknown";
  type = AttentionType.configuration;
  severity = AttentionSeverity.medium;
  title = "Unknown Alert";
  description = "";
  timestamp = some now;
  created_at = now;
  entity_type = none;
  entity_id = none;
  entity_name = none;
  action_label = none;
  metadata = none;
}
map_attention_item_dto_to_domain js now (some dto) =
    let ts = or_text dto.created_at (or_text dto.timestamp now) in
    record {
      id = or_text dto.id "att-item";
      type = map_unknown_enum js dto.type allowed_attention_types AttentionType.configuration;
      severity = map_unknown_enum js dto.severity allowed_severities AttentionSeverity.medium;
      title = or_text dto.title "Attention Item";
      description = or_text dto.description "";
      timestamp = some ts;
      created_at = ts;
      entity_type = dto.entity_type;
      entity_id = dto.entity_id;
      entity_name = dto.entity_name;
      action_label = dto.action_label;
      metadata = dto.metadata;
    }
