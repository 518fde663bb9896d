-- ===== src/App/Visits.antt =====
-- The cycles of the requests of gestalt/main.py, run by the assembled program.
use gestalt_agentic_software.App.Cycle.{agents, program-follows}
use gestalt_agentic_software.Orchestrator.Agents.{decision_to_node, scheduled_name}
use gestalt_agentic_software.Protocol.Models.{GestaltSummary}
use gestalt_agentic_software.App.Handlers.{trigger_audit, check_request, response_of, audit_request}
use gestalt_agentic_software.Graph.{scheduler_request, run_cycle, revalidate}
use gestalt_agentic_software.Orchestrator.Order.{IsKnown}
use gestalt_agentic_software.Events.Interface.{IsMemory}
use gestalt_agentic_software.Graph.Response.{IsCycle}
use gestalt_agentic_software.Graph.Ends.{reporters, visited}
use gestalt_agentic_software.App.Plans.{
  Plans, scheduled-Plans, audit_request-pending, audit_request-Plans,
}
use gestalt_agentic_software.Orchestrator.Setup.{IsSetUp}
use gestalt_agentic_software.Python.Exec.{Result, continue, pure, ok, Exc, raised}
use gestalt_agentic_software.Tools.Outside.{Outside}
use gestalt_agentic_software.App.Jobs.{Interval, minutes, hours, build_scheduler, Job}
use gestalt_agentic_software.Protocol.Reports.{CycleRequest, GestaltGraphState, TriggerAuditRequest}
use gestalt_agentic_software.Config.{GestaltSettings, SchedulerConfig}
use gestalt_agentic_software.Prelude.{
  String, List, if◌then◌else◌, str_eq, ℕ, ◌≤◌, ◌≡◌, inl, ap, false, str_len, inr, is_blank, map,
  some, [], codes, none, ◌∷◌, All, ◌⊎◌, arith, sym, refl,
}
use gestalt_agentic_software.Runtime.{Host, World}
use mathlib.Core.Path.{subst}
use gestalt_agentic_software.Python.Dict
use gestalt_agentic_software.Python.Dict.{Dict, string_key}

-- A cycle that ends with the reports of the named agents, between turns of the orchestrator, and with a
-- summary that leaves nothing pending. Its answer is made of the ended state, or is what the validation
-- of that state's approvals raises.
pub record Visits {A : Type 0} (host : Host) (names : List String) (answer : GestaltGraphState → A)
    (r : Result A) : Type 0 where
  pub after : GestaltGraphState
  pub end_world : World
  pub reports : reporters after ≡ visited names
  pub summary : GestaltSummary
  pub summary_eq : after.latest_summary ≡ some summary
  pub nothing_pending : summary.pending_actions ≡ []
  pub result :
      (r ≡ ok (answer after))
      ⊎ ((exc : Exc) × ((revalidate host after.approvals end_world).0 ≡ raised exc)
          × (r ≡ raised exc))

IsCycle→Visits :
    (host : Host) (request : CycleRequest) (names : List String) (r : Result GestaltGraphState)
    → Plans names request
    → IsCycle host request r
    → Visits host names (λ g. g) r
IsCycle→Visits host request names r plan c = record {
  after = c.after;
  end_world = c.end_world;
  reports = rw (plan c.start c.starts.metadata, c.starts.no_reports) at c.ended.reports;
  summary = c.ended.summary;
  summary_eq = c.ended.summary_eq;
  nothing_pending = c.ended.pending_actions;
  result = c.result;
}

-- The answer of a handler that turns the state of a cycle into `answer`.
Visits-answer :
    {A : Type 0} (host : Host) (names : List String) (answer : GestaltGraphState → A)
    (r : Result GestaltGraphState) (w : World)
    → Visits host names (λ g. g) r
    → Visits host names answer (continue r (λ g. pure (answer g)) w).0
Visits-answer host names answer r w v = record {
  after = v.after;
  end_world = v.end_world;
  reports = v.reports;
  summary = v.summary;
  summary_eq = v.summary_eq;
  nothing_pending = v.nothing_pending;
  result = elim (v.result) [
    | inl e ↦ inl (ap (λ (x : Result GestaltGraphState). (continue x (λ g. pure (answer g)) w).0) e)
    | inr (exc, bad, e) ↦
        inr (
          exc,
          bad,
          ap (λ (x : Result GestaltGraphState). (continue x (λ g. pure (answer g)) w).0) e,
        )
  ];
}

-- The agent that a job of the scheduler is for, by the job's id.
abbrev pub agent_for : String → String
agent_for id =
    if str_eq id "knowledge_maintenance"
    then "knowledge"
    else if str_eq id "optimizer_maintenance"
    then "optimizer"
    else id

-- How often it runs.
abbrev pub interval_for : SchedulerConfig → String → Interval
interval_for config id =
    if str_eq id "monitor"
    then minutes config.monitor_interval_minutes
    else if str_eq id "security_audit"
    then hours config.security_audit_interval_hours
    else if str_eq id "knowledge_maintenance"
    then minutes config.knowledge_maintenance_minutes
    else minutes config.optimizer_interval_minutes

module _ (settings : GestaltSettings) (host : Host) (outside : Outside) {prompt : String}
    (setup : IsSetUp settings host prompt) (limit : ℕ) (room : 13 ≤ limit) (w : World)
    (bus : IsMemory w.bus) where
  planned-Visits :
      (name : String) (request : CycleRequest)
      → IsKnown name
      → 3 ≤ str_len request.objective
      → is_blank (codes request.objective) ≡ false
      → Dict.get request.metadata "pending_agents" ≡ none
      → Plans (name ∷ []) request
      → Visits host
          (name ∷ [])
          (λ g. g)
          (run_cycle settings host prompt (agents settings host outside) limit request w).0
  planned-Visits name request known long text fresh plan =
      IsCycle→Visits host request (name ∷ []) _ plan (
        program-follows settings host outside setup limit request w room long text fresh
          (λ g same. subst (All IsKnown) (sym (plan g same)) (known, tt)) bus)

  scheduled-Visits :
      (objective name : String)
      → IsKnown name
      → str_eq name "" ≡ false
      → 3 ≤ str_len objective
      → is_blank (codes objective) ≡ false
      → Visits host
          (name ∷ [])
          (λ g. g)
          (run_cycle settings host prompt
            (agents settings host outside)
            limit
            (scheduler_request objective name)
            w).0
  unfolding scheduler_request Dict.get
  scheduled-Visits objective name known named long text =
      planned-Visits name (scheduler_request objective name) known long text refl
        (scheduled-Plans objective name named)

  pub trigger_audit-Visits :
      (payload : TriggerAuditRequest)
      → scheduled_name (Dict.get payload.metadata "scheduled_agent") ≡ none
      → Dict.get payload.metadata "pending_agents" ≡ none
      → Visits host
          ("security_audit" ∷ [])
          response_of
          (trigger_audit settings host prompt (agents settings host outside) limit payload w).0
  unfolding trigger_audit check_request decision_to_node
  trigger_audit-Visits payload free fresh =
      Visits-answer host ("security_audit" ∷ []) response_of _ _ (
        planned-Visits "security_audit" (audit_request payload) (_, refl) (omega arith) refl
          (audit_request-pending payload fresh) (audit_request-Plans payload free))

  pub build_scheduler-Visits :
      (config : SchedulerConfig)
      → (map (λ (job : Job). job.id) (build_scheduler config)
          ≡ "monitor" ∷ "security_audit" ∷ "knowledge_maintenance" ∷ "optimizer_maintenance" ∷ [])
        × All
            (λ (job : Job).
              (job.interval ≡ interval_for config job.id)
              × Visits host
                  (agent_for job.id ∷ [])
                  (λ g. g)
                  (run_cycle settings host prompt
                    (agents settings host outside)
                    limit
                    job.request
                    w).0)
            (build_scheduler config)
  unfolding build_scheduler decision_to_node
  build_scheduler-Visits config = (
    refl,
    (
      (
        refl,
        scheduled-Visits "Scheduled monitoring cycle" "monitor" (_, refl) refl (omega arith) refl,
      ),
      (
        (
          refl,
          scheduled-Visits "Scheduled security audit cycle" "security_audit" (_, refl) refl
              (omega arith) refl,
        ),
        (
          (
            refl,
            scheduled-Visits "Scheduled knowledge curation" "knowledge" (_, refl) refl (omega arith)
                refl,
          ),
          (
            (
              refl,
              scheduled-Visits "Scheduled optimization maintenance" "optimizer" (_, refl) refl
                  (omega arith) refl,
            ),
            tt,
          ),
        ),
      ),
    ),
  )
