-- ===== src/Dto/MissionControl.antt =====
-- frontend/src/api/dto/mission-control.dto.ts: attention items. The mapper takes any value, so each
-- field may be absent. `target_url` and `related_entity_ids` are read by nobody.
use virtual_office_sagara_ag.Prelude.{String, Option}

pub record AttentionItemDto : Type 0 where
  pub id : Option String
  pub type : Option String
  pub severity : Option String
  pub title : Option String
  pub description : Option String
  pub entity_type : Option String
  pub entity_id : Option String
  pub entity_name : Option String
  pub created_at : Option String
  pub timestamp : Option String
  pub action_label : Option String
  pub metadata : Option String
