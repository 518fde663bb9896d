-- ===== src/Examples/Service.antt =====
-- The audit, the endpoints, the jobs, the start and the retries at concrete inputs.
use gestalt_agentic_software.Graph.{run_cycle}
use gestalt_agentic_software.Blackboard.Lifecycle.{DatabaseServer}
use gestalt_agentic_software.App.Visits.{
  Visits, interval_for, agent_for, build_scheduler-Visits, trigger_audit-Visits,
}
use gestalt_agentic_software.Agents.Report.{IsVerdict}
use gestalt_agentic_software.Protocol.Validation.{in_score_range}
use gestalt_agentic_software.App.Starting.{build_runtime-IsOutcome, IsOutcome}
use gestalt_agentic_software.Agents.Verdict.{IsAccepted, called_for, conclude-IsVerdict}
use gestalt_agentic_software.App.Access.{require_admin_token_iff}
use gestalt_agentic_software.Prelude.Strip.{strip}
use gestalt_agentic_software.Tools.Implementations.Metrics.{float_error}
use gestalt_agentic_software.App.Cycle.{tool_registry, agents}
use gestalt_agentic_software.App.Handlers.{response_of, trigger_audit}
use gestalt_agentic_software.Python.Values.{str, int}
use gestalt_agentic_software.App.Token.{require_admin_token}
use gestalt_agentic_software.App.Start.{build_runtime}
use gestalt_agentic_software.Examples.Program.{program-IsSetUp, program_settings, outside, called}
use gestalt_agentic_software.Tools.Fields.{
  model, only_fields, long_text, text_field, text_value, required_int, int_value,
}
use gestalt_agentic_software.Prelude.Int.{pos, ℤ}
use gestalt_agentic_software.Examples.Data.{state, board, host}
use gestalt_agentic_software.App.Jobs.{Job, build_scheduler}
use gestalt_agentic_software.Config.{GestaltSettings, EventBackend}
use gestalt_agentic_software.Events.Redis.{RedisServer}
use gestalt_agentic_software.Python.Returns.{Returns}
use gestalt_agentic_software.Agents.SecurityAudit.{
  SecurityAuditReasoning, audit_reasoning, conclude,
}
use gestalt_agentic_software.Protocol.Reports.{GestaltGraphState, TriggerAuditRequest}
use gestalt_agentic_software.Retry.{IsBounded, with_retry, counted, with_retry-IsBounded}
use gestalt_agentic_software.Python.Exec.{
  Exec, raise_with, timeout_error, ok, pure, os_error, http_error,
}
use gestalt_agentic_software.Prelude.{
  All, Option, String, true, ℕ, ◌∷◌, [], if◌then◌else◌, ◌==◌, ◌≡◌, refl, ◌+◌, ◌↔◌, map, some, arith,
}
use gestalt_agentic_software.App.Visits.{
  Visits, trigger_audit-Visits, build_scheduler-Visits, agent_for, interval_for,
}
use gestalt_agentic_software.Python.Dict
use gestalt_agentic_software.Python.Dict.{string_key}

abbrev payload : TriggerAuditRequest
payload = record { scope = "event_bus" ∷ []; metadata = ("reason", str "drill") ∷ [] }

trigger_audit-Visits_example :
    Visits host
      ("security_audit" ∷ [])
      response_of
      (trigger_audit program_settings host "Route with care."
        (agents program_settings host outside)
        25
        payload
        called).0
unfolding Dict.get
trigger_audit-Visits_example =
    trigger_audit-Visits program_settings host outside program-IsSetUp 25 (omega arith) called
      (record { held = _; eq = refl }) payload refl refl

build_scheduler-Visits_example :
    (map (λ (job : Job). job.id) (build_scheduler program_settings.scheduler)
      ≡ "monitor" ∷ "security_audit" ∷ "knowledge_maintenance" ∷ "optimizer_maintenance" ∷ [])
    × All
        (λ (job : Job).
          (job.interval ≡ interval_for program_settings.scheduler job.id)
          × Visits host
              (agent_for job.id ∷ [])
              (λ g. g)
              (run_cycle program_settings host "Route with care."
                (agents program_settings host outside)
                25
                job.request
                called).0)
        (build_scheduler program_settings.scheduler)
build_scheduler-Visits_example =
    build_scheduler-Visits program_settings host outside program-IsSetUp 25 (omega arith) called
      (record { held = _; eq = refl }) program_settings.scheduler

-- A header that begins as the scheme does, but is not of it, is left whole.
other_header :
    require_admin_token "SECRET" (some "BeSECRET") ≡ raise_with http_error "Invalid admin token."
unfolding require_admin_token
other_header = refl

require_admin_token_iff_example :
    ((header : Option String) × (require_admin_token "secret\n" header ≡ ok tt))
    ↔ (strip "secret\n" ≡ "secret\n")
require_admin_token_iff_example = require_admin_token_iff "secret\n"

-- An operation that succeeds at its third call.
abbrev third_time : Exec ℕ String
third_time n = if n == 2 then (ok "ready", n + 1) else (raise_with timeout_error "not yet", n + 1)

with_retry-IsBounded_example :
    IsBounded (λ e. true) 0 2 (with_retry (λ e. true) (counted third_time) 3 (0, 0))
with_retry-IsBounded_example = with_retry-IsBounded (λ e. true) third_time 3 0

-- A state after a failed invocation, and the model's answer to its audit.
abbrev failed : GestaltGraphState
failed = record state { metadata = ("last_error", str "boom") ∷ [] }

abbrev verdict : SecurityAuditReasoning
verdict = record {
  summary = "The audit found one failure to analyze.";
  overall_risk_score = pos 40;
}

verdict-IsAccepted : IsAccepted outside.coercions verdict
unfolding audit_reasoning model only_fields long_text text_field text_value required_int int_value
    Dict.get
verdict-IsAccepted = (
  ("summary", str "The audit found one failure to analyze.")
      ∷ ("overall_risk_score", int (pos 40))
      ∷ [],
  refl,
)

conclude-IsVerdict_example :
    Returns
      (conclude program_settings host outside.coercions
        (tool_registry program_settings host outside)
        failed
        float_error
        0
        (λ findings. pure verdict))
      (record { world = called; approvals = [] })
      (λ a t.
        (risk : ℤ) × (in_score_range risk ≡ true)
        × IsVerdict (called_for program_settings host failed float_error) risk a)
conclude-IsVerdict_example =
    conclude-IsVerdict program_settings host failed float_error outside.coercions
      (tool_registry program_settings host outside) 0 (λ findings. pure verdict)
      (λ findings u. record { value = verdict; final = u; eq = refl; holds = verdict-IsAccepted })
      (record { world = called; approvals = [] })

-- A Redis server that does not answer.
abbrev down : RedisServer
down = record {
  ping = raise_with timeout_error "no answer";
  set = λ keys name approval ttl. raise_with timeout_error "no answer";
  xadd = λ stream event limit. raise_with timeout_error "no answer";
  xrevrange = λ stream count. [];
}

-- The settings with a bus in Redis; the database is in SQLite.
abbrev redis_settings : GestaltSettings
redis_settings = record program_settings {
  events = record program_settings.events { backend = EventBackend.redis };
}

-- A database that is opened and has its schema made, beside a graph that is not reached.
abbrev database : DatabaseServer
database = record {
  create_engine = λ url. ok tt;
  create_all = λ url. ok tt;
  driver = λ config. raise_with os_error "no route";
}

build_runtime-IsOutcome_example :
    IsOutcome redis_settings down
      (λ n. "uuid")
      database
      board
      (build_runtime redis_settings down (λ n. "uuid") database board)
build_runtime-IsOutcome_example =
    build_runtime-IsOutcome redis_settings down (λ n. "uuid") database board
