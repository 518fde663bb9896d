-- ===== src/Graph/Response.antt =====
-- `run_cycle`: from a request to the state of its ended cycle.
use gestalt_agentic_software.Orchestrator.Order.{determine_next_agents-IsRoute, IsKnown}
use gestalt_agentic_software.Graph.Rounds.{cycle_follows}
use gestalt_agentic_software.Orchestrator.Agents.{determine_next_agents, scheduled_name}
use gestalt_agentic_software.Python.Returns.{Returns, Result-cases}
use gestalt_agentic_software.Graph.Ends.{IsEnded}
use gestalt_agentic_software.Python.Exec.{
  Result, ok, Exc, raised, Exec, continue, ◌>>◌, pure, ◌>>=◌,
}
use gestalt_agentic_software.Graph.Cycle.{AreSpecialists}
use gestalt_agentic_software.Orchestrator.Setup.{IsSane, IsSetUp}
use gestalt_agentic_software.Prelude.{
  String, ◌≡◌, [], ◌≤◌, str_len, is_blank, codes, false, ℕ, none, ◌+◌, ◌⊎◌, true, arith, le→leb,
  refl, ap, ◌∙◌, inl, inr, All,
}
use gestalt_agentic_software.Runtime.{Host, World}
use gestalt_agentic_software.Config.{GestaltSettings}
use gestalt_agentic_software.Graph.{
  build_graph_state, Specialists, run_cycle, default_stats, revalidate, visit,
}
use gestalt_agentic_software.Protocol.Reports.{CycleRequest, GestaltGraphState}
use gestalt_agentic_software.Python.Dict
use gestalt_agentic_software.Python.Dict.{string_key}
use gestalt_agentic_software.Runtime
use gestalt_agentic_software.Events.Interface.{IsMemory}

-- The state that a request starts with.
pub record IsStart (request : CycleRequest) (state : GestaltGraphState) : Type 0 where
  pub objective : state.objective ≡ request.objective
  pub source : state.source ≡ request.source
  pub metadata : state.metadata ≡ request.metadata
  pub no_reports : state.execution_reports ≡ []
  pub sane : IsSane state

build-Returns :
    (host : Host) (request : CycleRequest) (w : World)
    → 3 ≤ str_len request.objective
    → is_blank (codes request.objective) ≡ false
    → IsMemory w.bus
    → Returns (build_graph_state host request) w (λ g v. IsStart request g × IsMemory v.bus)
unfolding build_graph_state Runtime.utc_now Runtime.new_uuid
build-Returns host request w long text bus = record {
  value = record {
    trace_id = w.uuids;
    cycle_id = w.uuids + 1;
    source = request.source;
    objective = request.objective;
    stats = default_stats (record { instant = host.clock w.ticks; aware = true });
    decisions = [];
    messages = [];
    commands = [];
    command_results = [];
    memories = [];
    optimization_proposals = [];
    audit_reports = [];
    execution_reports = [];
    latest_summary = none;
    approvals = [];
    metadata = request.metadata;
  };
  final = record w { ticks = w.ticks + 1; uuids = w.uuids + 1 + 1 };
  eq = ground (arith, le→leb 3 _ long);
  holds = (
    record {
      objective = refl;
      source = refl;
      metadata = refl;
      no_reports = refl;
      sane = record { objective_long = long; objective_blank = text; risk = refl };
    },
    bus,
  );
}

-- The cycle of a request, up to the validation of its result.
pub record IsCycle (host : Host) (request : CycleRequest) (r : Result GestaltGraphState)
    : Type 0 where
  pub start : GestaltGraphState
  pub after : GestaltGraphState
  pub end_world : World
  pub starts : IsStart request start
  pub ended : IsEnded (determine_next_agents start) start after
  pub result :
      (r ≡ ok after)
      ⊎ ((exc : Exc) × ((revalidate host after.approvals end_world).0 ≡ raised exc)
          × (r ≡ raised exc))

module _ {settings : GestaltSettings} {host : Host} {prompt : String} (agents : Specialists)
    (setup : IsSetUp settings host prompt) (good : AreSpecialists agents) where
  abbrev first_of : GestaltGraphState → World → Result (Unit {0}) → Result GestaltGraphState
  first_of g v r = (continue r (λ _ u. (ok g, u)) (revalidate host g.approvals v).1).0

  abbrev checked : GestaltGraphState → Exec World GestaltGraphState
  checked g = do revalidate host g.approvals; pure g

  -- The cycle of a request that brings no plan, if every plan that is made for it names nodes only.
  pub run_cycle-follows :
      (limit : ℕ) (request : CycleRequest) (w : World)
      → 13 ≤ limit
      → 3 ≤ str_len request.objective
      → is_blank (codes request.objective) ≡ false
      → Dict.get request.metadata "pending_agents" ≡ none
      → ((g : GestaltGraphState)
          → g.metadata ≡ request.metadata
          → All IsKnown (determine_next_agents g))
      → IsMemory w.bus
      → IsCycle host request (run_cycle settings host prompt agents limit request w).0
  unfolding run_cycle
  run_cycle-follows limit request w room long text fresh known bus =
      let b = build-Returns host request w long text bus in
      let s = b.holds.0 in
      let c =
        cycle_follows agents setup good limit b.value b.final room s.sane (rw s.metadata fresh)
          (known b.value s.metadata) b.holds.1 in
      let eq =
        ap
          (λ (x : Result GestaltGraphState × World).
            (continue x.0 (λ state v. (visit settings host prompt agents limit state >>= checked) v)
              x.1).0)
          b.eq
        ∙ ap (λ (x : Result GestaltGraphState × World). (continue x.0 checked x.1).0) c.eq in
      record {
        start = b.value;
        after = c.value;
        end_world = c.final;
        starts = s;
        ended = c.holds.0;
        result = elim (Result-cases (revalidate host c.value.approvals c.final).0) [
          | inl (u, fine) ↦ inl (eq ∙ ap (first_of c.value c.final) fine)
          | inr (exc, expired) ↦ inr (exc, expired, eq ∙ ap (first_of c.value c.final) expired)
        ];
      }

  pub run_cycle-IsCycle :
      (limit : ℕ) (request : CycleRequest) (w : World)
      → 13 ≤ limit
      → 3 ≤ str_len request.objective
      → is_blank (codes request.objective) ≡ false
      → Dict.get request.metadata "pending_agents" ≡ none
      → scheduled_name (Dict.get request.metadata "scheduled_agent") ≡ none
      → IsMemory w.bus
      → IsCycle host request (run_cycle settings host prompt agents limit request w).0
  run_cycle-IsCycle limit request w room long text fresh unscheduled bus =
      run_cycle-follows limit request w room long text fresh
        (λ g same. (determine_next_agents-IsRoute g (rw same unscheduled)).known) bus
