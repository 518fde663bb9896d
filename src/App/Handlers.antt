-- ===== src/App/Handlers.antt =====
-- The endpoints of gestalt/main.py, and `_register_tools`'s registry in use.
use gestalt_agentic_software.Tools.Implementations.Memory.{timed_query}
use gestalt_agentic_software.Protocol.Enums.{SchedulerSource}
use gestalt_agentic_software.Protocol.Validation.{check_query, min_length}
use gestalt_agentic_software.Blackboard.{get_latest_stats}
use gestalt_agentic_software.Graph.{Specialists, run_cycle}
use gestalt_agentic_software.Python.Exec.{Exec, Result, validated, ◌>>=◌, gets, lift, pure}
use gestalt_agentic_software.Python.Values.{Values, bool, nil, Value, array, cons, object, str, end}
use gestalt_agentic_software.Protocol.Models.{Datetime, BlackboardQuery, BlackboardQueryResult}
use gestalt_agentic_software.Runtime.{Host, World}
use gestalt_agentic_software.Config.{GestaltSettings}
use gestalt_agentic_software.Protocol.Reports.{
  CycleRequest, GestaltGraphState, TriggerAuditRequest, CycleResponse, GestaltStatsReport,
}
use gestalt_agentic_software.Prelude.{
  List, String, Option, Bool, true, ℕ, some, ◌∷◌, none, [], if◌then◌else◌,
}
use gestalt_agentic_software.Python.Dict
use gestalt_agentic_software.Python.Dict.{Dict, string_key}
use gestalt_agentic_software.Runtime

-- HealthResponse, with its default `service`
pub record HealthResponse : Type 0 where
  pub status : String
  pub service : String
  pub version : String
  pub timestamp : Datetime
  pub dependencies : Dict String String

abbrev pub version : String
version = "1.0.0"

-- CycleResponse(…, accepted=True)
unfoldable pub response_of : GestaltGraphState → CycleResponse
response_of state = record {
  trace_id = state.trace_id;
  cycle_id = state.cycle_id;
  accepted = true;
  summary = state.latest_summary;
  commands = state.commands;
}

abbrev pub text_array : List String → Values
text_array [] = nil
text_array (s ∷ ss) = cons (str s) (text_array ss)

-- {**payload.metadata, "force_audit": True, "audit_scope": payload.scope}
unfoldable pub audit_request : TriggerAuditRequest → CycleRequest
unfolding Dict.put
audit_request payload = record {
  objective = "Manual security audit trigger";
  source = SchedulerSource.api;
  metadata =
      Dict.put (Dict.put payload.metadata "force_audit" (bool true)) "audit_scope"
        (array (text_array payload.scope));
}

-- CycleRequest(…), of a body
unfoldable pub check_request : CycleRequest → Result CycleRequest
check_request r = validated (min_length 3 r.objective) r

module _ (settings : GestaltSettings) (host : Host) (prompt : String) (agents : Specialists)
    (limit : ℕ) where
  -- The handlers after the check of the token.
  unfoldable pub trigger_cycle : CycleRequest → Exec World CycleResponse
  unfolding response_of
  trigger_cycle payload = do
    state ← run_cycle settings host prompt agents limit payload
    pure (response_of state)

  unfoldable pub trigger_audit : TriggerAuditRequest → Exec World CycleResponse
  unfolding response_of audit_request check_request
  trigger_audit payload = do
    request ← lift (check_request (audit_request payload))
    state ← run_cycle settings host prompt agents limit request
    pure (response_of state)

module _ (host : Host) where
  unfoldable pub live : Exec World HealthResponse
  unfolding Runtime.utc_now
  live = do
    now ← Runtime.utc_now host
    pure (record {
      status = "live";
      service = "gestalt-core";
      version = version;
      timestamp = now;
      dependencies = [];
    })

  abbrev presence : Option GestaltStatsReport → String
  presence none = "absent"
  presence (some _) = "present"

  -- `graph` says whether the runtime has one.
  unfoldable pub ready : Bool → Exec World HealthResponse
  unfolding get_latest_stats Runtime.utc_now
  ready graph = do
    board ← gets (λ w. w.board)
    stats ← lift (get_latest_stats host.floats board)
    now ← Runtime.utc_now host
    pure (record {
      status = "ready";
      service = "gestalt-core";
      version = version;
      timestamp = now;
      dependencies =
          ("blackboard", "ready")
          ∷ ("event_bus", "ready")
          ∷ ("graph", if graph then "ready" else "initializing")
          ∷ ("stats", presence stats)
          ∷ [];
    })

  -- report.model_dump(mode="json") if report is not None else {}
  abbrev stats_value : Option GestaltStatsReport → Value
  stats_value none = object end
  stats_value (some report) = host.stats_report_value report

  unfoldable pub latest_stats : Exec World Value
  unfolding get_latest_stats
  latest_stats = do
    board ← gets (λ w. w.board)
    report ← lift (get_latest_stats host.floats board)
    pure (stats_value report)

  -- Its JSON is the answer's.
  unfoldable pub query_blackboard : BlackboardQuery → Exec World BlackboardQueryResult
  unfolding check_query timed_query
  query_blackboard payload = do query ← lift (check_query payload); timed_query host query
