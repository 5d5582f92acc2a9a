-- ===== src/Realtime/Cache/Severity.antt =====
-- The severities of mapped attention items: the table of mission-control.mapper.ts has lower-case
-- texts, and `mapUnknownEnum` tries the upper-cased text and the text as it is.
use virtual_office_sagara_ag.Prelude.{
  String, ◌≡◌, ◌≢◌, refl, sym, ap, ◌∙◌, Bool, false, not, ◌&&◌, ◌==◌, Option, none, some, List, [],
  ◌∷◌, map, filter, filter_eq, length, or_else, arith, ne→false, true→eq, if_cases,
}
use virtual_office_sagara_ag.Engine.{Engine}
use virtual_office_sagara_ag.Dto.MissionControl.{AttentionItemDto}
use virtual_office_sagara_ag.Domain.MissionControl.{
  AttentionSeverity, AttentionItem, is_critical, is_high,
}
use virtual_office_sagara_ag.Mapper.Common.{spelled, map_unknown_enum}
use virtual_office_sagara_ag.Mapper.MissionControl.{
  allowed_severities, map_attention_item_dto_to_domain,
}
use virtual_office_sagara_ag.Realtime.Cache.{attention_pulse}

length-filter-map {ℓ κ} :
    {A : Type ℓ} {B : Type κ} (p : B → Bool) (f : A → B) (xs : List A)
    → length (filter p (map f xs)) ≡ length (filter (λ x. p (f x)) xs)
length-filter-map p f [] = refl
length-filter-map p f (x ∷ xs) = ground (arith, length-filter-map p f xs)

module _ (js : Engine) where
  -- What `toUpperCase` gives has no lower-case letter, so it is none of these texts.
  pub record UpperCases : Type 0 where
    pub not_critical : (s : String) → js.to_upper_case s ≢ "critical"
    pub not_high : (s : String) → js.to_upper_case s ≢ "high"
    pub not_medium : (s : String) → js.to_upper_case s ≢ "medium"
    pub not_low : (s : String) → js.to_upper_case s ≢ "low"

  -- The severity is sent, and is this text but for blanks around it.
  abbrev pub is_sent : String → AttentionItemDto → Bool
  is_sent text dto = elim dto.severity [
    | none ↦ false
    | some value ↦ not (value == "") && text == js.trim value
  ]

  abbrev severity_of : Option String → AttentionSeverity
  severity_of value = map_unknown_enum js value allowed_severities AttentionSeverity.medium

  upper-unspelled :
      UpperCases → (s : String) → spelled allowed_severities (js.to_upper_case s) ≡ none
  unfolding spelled
  upper-unspelled h s =
      rw
        (
          ne→false "critical" (js.to_upper_case s) (λ e. h.not_critical s (sym e)),
          ne→false "high" (js.to_upper_case s) (λ e. h.not_high s (sym e)),
          ne→false "medium" (js.to_upper_case s) (λ e. h.not_medium s (sym e)),
          ne→false "low" (js.to_upper_case s) (λ e. h.not_low s (sym e)),
        )
        refl

  -- What the table says of a trimmed text.
  spelled-severity :
      (s : String)
      → (is_critical (or_else (spelled allowed_severities s) AttentionSeverity.medium)
          ≡ ("critical" == s))
        × (is_high (or_else (spelled allowed_severities s) AttentionSeverity.medium)
            ≡ ("high" == s))
  unfolding spelled
  spelled-severity s = (
    ground arith,
    if_cases (λ o. is_high (or_else o AttentionSeverity.medium) ≡ ("high" == s)) ("critical" == s)
        (λ t. rw (sym (true→eq "critical" s t)) refl) (λ _. ground arith),
  )

  severity-sent :
      (now : String)
      → UpperCases
      → (dto : AttentionItemDto)
      → (is_critical (map_attention_item_dto_to_domain js now (some dto)).severity
          ≡ is_sent "critical" dto)
        × (is_high (map_attention_item_dto_to_domain js now (some dto)).severity
            ≡ is_sent "high" dto)
  unfolding map_attention_item_dto_to_domain map_unknown_enum
  severity-sent now h dto = go dto.severity
    where
      go :
          (o : Option String)
          → (is_critical (severity_of o) ≡ is_sent "critical" (record dto { severity = o }))
            × (is_high (severity_of o) ≡ is_sent "high" (record dto { severity = o }))
      go none = (refl, refl)
      go (some value) =
          let other = spelled-severity (js.trim value) in
          rw (upper-unspelled h (js.trim value)) (ground (arith, other.0), ground (arith, other.1))

  -- Of attention items as they are sent, exactly those with the severity "critical" in lower case count
  -- as critical, and likewise for "high"; blanks around the text do not matter. Upper-casing is
  -- assumed to give none of the table's lower-case texts.
  pub attention_pulse-sent :
      (now : String) (dtos : List AttentionItemDto)
      → UpperCases
      → ((attention_pulse
            (map (λ d. map_attention_item_dto_to_domain js now (some d)) dtos)).critical_count
          ≡ length (filter (is_sent "critical") dtos))
        × ((attention_pulse
              (map (λ d. map_attention_item_dto_to_domain js now (some d)) dtos)).high_count
            ≡ length (filter (is_sent "high") dtos))
  attention_pulse-sent now dtos h = (
    length-filter-map (λ (i : AttentionItem). is_critical i.severity) _ dtos
        ∙ ap length (filter_eq dtos (λ d. (severity-sent now h d).0)),
    length-filter-map (λ (i : AttentionItem). is_high i.severity) _ dtos
        ∙ ap length (filter_eq dtos (λ d. (severity-sent now h d).1)),
  )
