-- ===== src/Tests/Replica.antt =====
-- The query cache at concrete inputs.
use virtual_office_sagara_ag.Prelude.{
  String, ◌≡◌, ◌≢◌, false, ◌==◌, if◌then◌else◌, none, some, List, [], ◌∷◌, filter, length, arith,
  if_cases, eq→true,
}
use virtual_office_sagara_ag.Engine.{Engine}
use virtual_office_sagara_ag.Prelude.JsMap.Keyed.{find_key, last_key}
use virtual_office_sagara_ag.Domain.Agent.{AgentProjection}
use virtual_office_sagara_ag.Domain.MissionControl.{AttentionItem, AttentionType, AttentionSeverity}
use virtual_office_sagara_ag.Mapper.Agent.{map_agent_dto_to_domain}
use virtual_office_sagara_ag.Realtime.Queries.{QueryKey}
use virtual_office_sagara_ag.Realtime.Queries.Table.{Table, table_client, empty_table}
use virtual_office_sagara_ag.Realtime.Cache.{
  agent_id, attention_id, merge_agents, merge_attention, patch_agents, apply_realtime_snapshot,
  apply_realtime_delta,
}
use virtual_office_sagara_ag.Realtime.Cache.Merge.{find-merge_agents, find-merge_attention}
use virtual_office_sagara_ag.Realtime.Cache.Coherence.{
  IsCoherent, apply_realtime_delta-IsCoherent, apply_realtime_snapshot-IsCoherent,
}
use virtual_office_sagara_ag.Dto.MissionControl.{AttentionItemDto}
use virtual_office_sagara_ag.Mapper.MissionControl.{map_attention_item_dto_to_domain}
use virtual_office_sagara_ag.Realtime.Cache.{attention_pulse}
use virtual_office_sagara_ag.Prelude.{map, refl}
use virtual_office_sagara_ag.Realtime.Cache.Severity.{UpperCases, is_sent, attention_pulse-sent}
use virtual_office_sagara_ag.Realtime.Cache.Details.{
  cached_agents, find-patch_agents, detail-patch_agents,
}
use virtual_office_sagara_ag.Tests.Samples.{plain, agent, snapshot, delta, agents_delta}

abbrev upserted : List AgentProjection
upserted = agent "scribe" "Scribe" ∷ agent "lead" "New Lead" ∷ []

abbrev old : List AgentProjection
old = agent "lead" "Lead" ∷ agent "scout" "Scout" ∷ []

abbrev filled : Table
filled = apply_realtime_snapshot table_client plain "nine" snapshot empty_table

abbrev item : (id title : String) → AttentionItem
item id title = record {
  id = id;
  type = AttentionType.configuration;
  severity = AttentionSeverity.medium;
  title = title;
  description = "";
  timestamp = none;
  created_at = "nine";
  entity_type = none;
  entity_id = none;
  entity_name = none;
  action_label = none;
  metadata = none;
}

find-merge_agents_example :
    find_key agent_id (merge_agents plain ("scout" ∷ []) upserted old) "lead"
    ≡ some (agent "lead" "New Lead")
unfolding last_key
find-merge_agents_example = find-merge_agents plain ("scout" ∷ []) upserted old "lead"

find-merge_attention_example :
    find_key attention_id
      (merge_attention ("one" ∷ []) (item "two" "B" ∷ []) (item "one" "A" ∷ item "two" "C" ∷ []))
      "one"
    ≡ none
unfolding last_key
find-merge_attention_example =
    find-merge_attention ("one" ∷ []) (item "two" "B" ∷ []) (item "one" "A" ∷ item "two" "C" ∷ [])
      "one"

apply_realtime_snapshot-IsCoherent_example : IsCoherent table_client filled
apply_realtime_snapshot-IsCoherent_example =
    apply_realtime_snapshot-IsCoherent table_client plain "nine" snapshot empty_table

apply_realtime_delta-IsCoherent_example :
    IsCoherent table_client (apply_realtime_delta table_client plain "ten" delta filled)
apply_realtime_delta-IsCoherent_example =
    apply_realtime_delta-IsCoherent table_client plain "ten" delta filled
      apply_realtime_snapshot-IsCoherent_example

find-patch_agents_example :
    find_key agent_id
      (cached_agents table_client plain agents_delta
        (patch_agents table_client plain (some agents_delta) filled))
      "scout"
    ≡ none
unfolding last_key map_agent_dto_to_domain
find-patch_agents_example = find-patch_agents table_client plain agents_delta filled "scout"

detail-patch_agents_example :
    (patch_agents table_client plain (some agents_delta) filled).entry
      (QueryKey.agent_detail "scout")
    ≡ none
unfolding last_key
detail-patch_agents_example = detail-patch_agents table_client plain agents_delta filled "scout"

-- An engine that upper-cases the texts of the table.
abbrev upper_case : String → String
upper_case s =
    if s == "critical"
    then "CRITICAL"
    else if s == "high"
    then "HIGH"
    else if s == "medium"
    then "MEDIUM"
    else if s == "low"
    then "LOW"
    else s

abbrev casing : Engine
casing = record plain { to_upper_case = upper_case }

-- A text that is none of its results, and that it does not leave alone.
upper_case-ne :
    (t : String)
    → ("CRITICAL" == t) ≡ false
    → ("HIGH" == t) ≡ false
    → ("MEDIUM" == t) ≡ false
    → ("LOW" == t) ≡ false
    → (s : String)
    → ((s == "critical") ≡ false
        → (s == "high") ≡ false
        → (s == "medium") ≡ false
        → (s == "low") ≡ false
        → (s == t) ≡ false)
    → upper_case s ≢ t
upper_case-ne t critical high medium low s unchanged e =
    let P = λ (v : String). (v == t) ≡ false in
    let differs =
      if_cases P (s == "critical") (λ _. critical)
        (λ c.
          if_cases P (s == "high") (λ _. high)
            (λ h.
              if_cases P (s == "medium") (λ _. medium)
                (λ m. if_cases P (s == "low") (λ _. low) (λ l. unchanged c h m l)))) in
    ground (arith, differs, eq→true (upper_case s) t e)

casing-UpperCases : UpperCases casing
casing-UpperCases = record {
  not_critical = λ s. upper_case-ne "critical" refl refl refl refl s (λ c h m l. c);
  not_high = λ s. upper_case-ne "high" refl refl refl refl s (λ c h m l. h);
  not_medium = λ s. upper_case-ne "medium" refl refl refl refl s (λ c h m l. m);
  not_low = λ s. upper_case-ne "low" refl refl refl refl s (λ c h m l. l);
}

abbrev item_dto : (severity : String) → AttentionItemDto
item_dto severity = record {
  id = some "att-1";
  type = none;
  severity = some severity;
  title = none;
  description = none;
  entity_type = none;
  entity_id = none;
  entity_name = none;
  created_at = none;
  timestamp = none;
  action_label = none;
  metadata = none;
}

abbrev item_dtos : List AttentionItemDto
item_dtos = item_dto "CRITICAL" ∷ item_dto "critical" ∷ item_dto "HIGH" ∷ item_dto "low" ∷ []

attention_pulse-sent_example :
    ((attention_pulse (
        map
          (λ d. map_attention_item_dto_to_domain casing "nine" (some d))
          item_dtos)).critical_count
      ≡ length (filter (is_sent casing "critical") item_dtos))
    × ((attention_pulse
          (map (λ d. map_attention_item_dto_to_domain casing "nine" (some d)) item_dtos)).high_count
        ≡ length (filter (is_sent casing "high") item_dtos))
attention_pulse-sent_example = attention_pulse-sent casing "nine" item_dtos casing-UpperCases
