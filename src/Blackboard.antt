-- ===== src/Blackboard.antt =====
-- gestalt/blackboard.py. A table is the list of its rows in the order of insertion. A row's columns
-- are fields of the model that its `payload_json` holds, so a row is that model; a JSON column is
-- the value that it encodes. The Neo4j store is a list of relations, or absent.
pub mod Query
pub mod Latest
pub mod Lifecycle
use gestalt_agentic_software.Python.Floats.{FloatOps, is_finite}
use gestalt_agentic_software.Prelude.Int.{pos_part}
use gestalt_agentic_software.Prelude.Sorting.{sort_desc}
use gestalt_agentic_software.Python.Exec.{
  Exec, Result, raise_with, ◌>>=◌, gets, integrity_error, lift, ok, ◌>>◌, modify, pure, raised,
  validation_error,
}
use gestalt_agentic_software.Python.Values.{Value, null, Float}
use gestalt_agentic_software.Protocol.Enums.{is_failed}
use gestalt_agentic_software.Protocol.Constraints.{check_health, check_stats_report}
use gestalt_agentic_software.Protocol.Reports.{
  GestaltAuditReport, GestaltStatsReport, OptimizationProposal,
}
use gestalt_agentic_software.Protocol.Models.{
  BlackboardMemoryRecord, BlackboardRelation, Datetime, GestaltCommand, Uuid, Metadata,
  BlackboardQuery, BlackboardQueryResult, AgentHealthSnapshot,
}
use gestalt_agentic_software.Config.{BlackboardConfig}
use gestalt_agentic_software.Prelude.{
  Bool, List, Option, String, ℕ, false, if◌then◌else◌, lower, none, not, starts_with, take, ◌∷◌, [],
  codes, join, length, reverse, select, some, ◌++◌, ◌+◌, ◌==◌, contains, str_eq, ◌||◌, split, ◌*◌,
  ltb, true, ◌&&◌,
}
use gestalt_agentic_software.Python.Dict
use gestalt_agentic_software.Python.Dict.{Dict, string_key, number_key}

-- `target`, `overlay` and `created_at` of a `PromptOverlayRow`; the row's place is its id.
pub record PromptOverlayRow : Type 0 where
  pub target : String
  pub overlay : Metadata
  pub created_at : Datetime

pub record GestaltBlackboard : Type 0 where
  pub config : BlackboardConfig
  pub memories : List BlackboardMemoryRecord
  pub stats_reports : List GestaltStatsReport
  pub audit_reports : List GestaltAuditReport
  pub commands : List GestaltCommand
  pub proposals : List OptimizationProposal
  pub overlays : List PromptOverlayRow
  pub graph_connected : Bool
  pub graph_relations : List BlackboardRelation

-- is_sqlite_url(self._config.database_url)
unfoldable pub is_sqlite_url : String → Bool
is_sqlite_url url = starts_with (codes url) (codes "sqlite")

abbrev pub supports_vector_search : GestaltBlackboard → Bool
supports_vector_search b = not (is_sqlite_url b.config.database_url)

-- `session.add` and `commit`: a primary key that is taken fails the commit.
module _ {A : Type 0} (key : A → Uuid) where
  unfoldable pub has_key : Uuid → List A → Bool
  has_key id [] = false
  has_key id (x ∷ xs) = key x == id || has_key id xs

  unfoldable pub insert_row : A → List A → Result (List A)
  unfolding has_key
  insert_row x rows =
      if has_key (key x) rows
      then raise_with integrity_error "UNIQUE constraint failed"
      else ok (rows ++ x ∷ [])

unfoldable pub write_memory : BlackboardMemoryRecord → Exec GestaltBlackboard BlackboardMemoryRecord
unfolding insert_row
write_memory r = do
  b ← gets (λ b. b)
  rows ← lift (insert_row (λ x. x.record_id) r b.memories)
  modify (λ b. record b { memories = rows })
  pure r

unfoldable pub write_stats_report : GestaltStatsReport → Exec GestaltBlackboard GestaltStatsReport
unfolding insert_row
write_stats_report r = do
  b ← gets (λ b. b)
  rows ← lift (insert_row (λ x. x.report_id) r b.stats_reports)
  modify (λ b. record b { stats_reports = rows })
  pure r

unfoldable pub write_audit_report : GestaltAuditReport → Exec GestaltBlackboard GestaltAuditReport
unfolding insert_row
write_audit_report r = do
  b ← gets (λ b. b)
  rows ← lift (insert_row (λ x. x.report_id) r b.audit_reports)
  modify (λ b. record b { audit_reports = rows })
  pure r

unfoldable pub write_command : GestaltCommand → Exec GestaltBlackboard GestaltCommand
unfolding insert_row
write_command c = do
  b ← gets (λ b. b)
  rows ← lift (insert_row (λ x. x.command_id) c b.commands)
  modify (λ b. record b { commands = rows })
  pure c

unfoldable pub write_optimization_proposal :
    OptimizationProposal → Exec GestaltBlackboard OptimizationProposal
unfolding insert_row
write_optimization_proposal p = do
  b ← gets (λ b. b)
  rows ← lift (insert_row (λ x. x.proposal_id) p b.proposals)
  modify (λ b. record b { proposals = rows })
  pure p

-- ORDER BY created_at DESC. Rows of one time come with the later insertion first; SQL leaves that
-- open, and no theorem here depends on it.
module _ {A : Type 0} (created_at : A → Datetime) where
  unfoldable pub newest_first : List A → List A
  unfolding sort_desc
  newest_first rows = sort_desc (λ x. (created_at x).instant) (reverse rows)

-- The latest stats report, if there is one.
abbrev pub first {ℓ} : {A : Type ℓ} → List A → Option A
first [] = none
first (x ∷ xs) = some x

abbrev pub if_ok : {A B : Type 0} → Result A → Result B → Result B
if_ok (ok _) next = next
if_ok (raised e) next = raised e

abbrev pub some_of : {A : Type 0} → Result A → Result (Option A)
some_of (ok a) = ok (some a)
some_of (raised e) = raised e

-- A model's JSON has null for an infinity or a NaN, which a float's field refuses when it is read.
abbrev pub floats_are_finite : List AgentHealthSnapshot → Bool
floats_are_finite [] = true
floats_are_finite (h ∷ hs) =
    is_finite h.error_rate && is_finite h.avg_latency_ms && floats_are_finite hs

abbrev pub has_finite_floats : GestaltStatsReport → Bool
has_finite_floats r =
    is_finite r.failure_ratio && is_finite r.p95_latency_ms && floats_are_finite r.agent_health

-- GestaltStatsReport.model_validate_json(row.payload_json), where the row holds the report that the JSON
-- was made of: the constraints are checked again.
module _ (f : FloatOps) where
  unfoldable pub check_agent_health : List AgentHealthSnapshot → Result (Unit {0})
  unfolding check_health
  check_agent_health [] = ok tt
  check_agent_health (h ∷ hs) = if_ok (check_health f h) (check_agent_health hs)

  unfoldable pub reload_stats : GestaltStatsReport → Result GestaltStatsReport
  unfolding check_agent_health check_stats_report
  reload_stats r =
      if has_finite_floats r
      then if_ok (check_agent_health r.agent_health) (check_stats_report f r)
      else raise_with validation_error "validation error"

  abbrev pub reload_first : Option GestaltStatsReport → Result (Option GestaltStatsReport)
  unfolding reload_stats
  reload_first none = ok none
  reload_first (some r) = some_of (reload_stats r)

  unfoldable pub get_latest_stats : GestaltBlackboard → Result (Option GestaltStatsReport)
  unfolding newest_first
  get_latest_stats b = reload_first (first (newest_first (λ r. r.captured_at) b.stats_reports))

unfoldable pub update_prompt_policy :
    Datetime → String → Metadata → GestaltBlackboard → GestaltBlackboard
update_prompt_policy now target overlay b = record b {
  overlays = b.overlays ++ record { target = target; overlay = overlay; created_at = now } ∷ [];
}

abbrev pub overlay_or_empty : Option PromptOverlayRow → Metadata
overlay_or_empty none = []
overlay_or_empty (some row) = row.overlay

unfoldable pub get_prompt_policy : GestaltBlackboard → String → Metadata
unfolding newest_first
get_prompt_policy b target =
    overlay_or_empty
      (first (newest_first (λ r. r.created_at) (select (λ r. str_eq r.target target) b.overlays)))

-- MERGE … {relation_id}: a relation whose id is there is replaced.
unfoldable pub merge_relation :
    BlackboardRelation → List BlackboardRelation → List BlackboardRelation
merge_relation r [] = r ∷ []
merge_relation r (x ∷ xs) =
    let rest = merge_relation r xs in if x.relation_id == r.relation_id then r ∷ xs else x ∷ rest

unfoldable pub merge_relations : List BlackboardRelation → GestaltBlackboard → GestaltBlackboard
unfolding merge_relation
merge_relations [] b = b
merge_relations (r ∷ rs) b =
    let merged = record b { graph_relations = merge_relation r b.graph_relations } in
    let rest = merge_relations rs merged in if b.graph_connected then rest else b

unfoldable pub link_entities : List BlackboardRelation → GestaltBlackboard → GestaltBlackboard
unfolding merge_relations
link_entities [] b = b
link_entities (r ∷ rs) b = merge_relations (r ∷ rs) b

unfoldable pub query_relations : GestaltBlackboard → String → List BlackboardRelation
query_relations b entity_id =
    if b.graph_connected
    then select (λ r. str_eq r.source_id entity_id || str_eq r.target_id entity_id)
        b.graph_relations
    else []

-- `recent_average_audit_risk` is the exact quotient of the total and the number of rows, which is
-- 0 when there is no row.
pub record CohesionInputs : Type 0 where
  pub stats_samples : ℕ
  pub failed_commands : ℕ
  pub risk_total : ℕ
  pub risk_rows : ℕ
  pub supports_vector_search : Bool

unfoldable pub sum_risk : List GestaltAuditReport → ℕ
sum_risk [] = 0
sum_risk (r ∷ rs) = pos_part r.overall_risk_score + sum_risk rs

unfoldable pub compute_cohesion_inputs : GestaltBlackboard → CohesionInputs
unfolding newest_first sum_risk is_failed
compute_cohesion_inputs b =
    let audit_rows = take 10 (newest_first (λ r. r.created_at) b.audit_reports) in
    let command_rows = take 25 (newest_first (λ c. c.created_at) b.commands) in
    record {
      stats_samples = length b.stats_reports;
      failed_commands = length (select (λ c. is_failed c.status) command_rows);
      risk_total = sum_risk audit_rows;
      risk_rows = length audit_rows;
      supports_vector_search = supports_vector_search b;
    }

module _ (same_value : Value → Value → Bool) (uuid_text : Uuid → String) where
  -- record.metadata.get(key) == expected, where a missing key gives `None`
  abbrev has_value : Metadata → String → Value → Bool
  has_value m key expected = elim (Dict.get m key) [
    | none ↦ same_value null expected
    | some v ↦ same_value v expected
  ]

  unfoldable pub matching_filters : Metadata → Metadata → ℕ
  matching_filters m [] = 0
  matching_filters m ((key, expected) ∷ rest) =
      (if has_value m key expected then 1 else 0) + matching_filters m rest

  -- The text in which a record is searched, in lower case.
  abbrev haystack : BlackboardMemoryRecord → List ℕ
  haystack r = lower (join " " (r.title ∷ r.content ∷ join " " r.tags ∷ []))

  -- The scores are small whole numbers, which a float holds exactly.
  unfoldable pub score_memory : BlackboardMemoryRecord → List ℕ → Metadata → ℕ
  unfolding matching_filters
  score_memory r normalized_query filters =
      length (select (contains (haystack r)) (split normalized_query)) * 2
      + (if contains (haystack r) normalized_query then 5 else 0)
      + matching_filters r.metadata filters

  -- The rows that a query looks at: the newest, three times its limit.
  abbrev pub recent : GestaltBlackboard → BlackboardQuery → List BlackboardMemoryRecord
  recent b q = take (q.limit * 3) (newest_first (λ r. r.created_at) b.memories)

  abbrev pub score : BlackboardQuery → BlackboardMemoryRecord → ℕ
  score q r = score_memory r (lower q.query) q.filters

  -- `latency` is what the two readings of the clock make, in milliseconds.
  unfoldable pub query_memory : GestaltBlackboard → BlackboardQuery → Float → BlackboardQueryResult
  unfolding newest_first query_relations score_memory
  query_memory b q latency =
      let matches =
        take q.limit (select (λ r. ltb 0 (score q r)) (sort_desc (score q) (recent b q))) in
      record {
        query = q;
        matches = matches;
        relations = elim (first matches) [
          | none ↦ []
          | some r ↦ query_relations b (uuid_text r.record_id)
        ];
        latency_ms = latency;
      }
