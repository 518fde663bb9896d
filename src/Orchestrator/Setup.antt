-- ===== src/Orchestrator/Setup.antt =====
-- What the orchestrator needs of its settings, of the clock and of the state for its turn to succeed.
use gestalt_agentic_software.Python.Exec.{pure}
use mathlib.Core.Path.{subst}
use native.Mathlib.Nat.{le_trans}
use gestalt_agentic_software.Protocol.Enums.{BlackboardQueryMode}
use gestalt_agentic_software.Blackboard.{query_memory}
use gestalt_agentic_software.Python.Dict
use gestalt_agentic_software.Python.Dict.{string_key}
use gestalt_agentic_software.Runtime
use gestalt_agentic_software.Python.Dict.{Dict}
use gestalt_agentic_software.Protocol.Validation.{
  in_score_range, min_length, check_query, check_envelope,
}
use gestalt_agentic_software.Orchestrator.Turn.{orchestrator}
use gestalt_agentic_software.BaseAgent.Context.{
  prepare_context, context_records, milliseconds, is_inbound,
}
use gestalt_agentic_software.Python.Returns.{Returns, bind-Returns}
use gestalt_agentic_software.BaseAgent.Failure.{IsMonotone}
use gestalt_agentic_software.Protocol.Models.{Datetime}
use gestalt_agentic_software.Prelude.{
  String, ◌≤◌, str_len, ◌≡◌, is_blank, ℕ, codes, ◌+◌, false, ◌<◌, ◌*◌, true, some, str_eq,
  Bool-cases, le→leb, inl, arith, ap, str_eq_iff, inr, [], refl, Bool, if◌then◌else◌, sym, select,
}
use gestalt_agentic_software.Runtime.{Host, Session}
use gestalt_agentic_software.Events.Interface.{IsMemory}
use gestalt_agentic_software.Protocol.Reports.{GestaltGraphState}
use gestalt_agentic_software.Config.{GestaltSettings, AgentPolicyConfig}

-- The cycle's settings and services: mock mode, a policy for the orchestrator, a limit of the query
-- in its range, a prompt, and a clock that never goes back and that moves on, from one reading to
-- the next, by less than the lifetime of an approval.
pub record IsSetUp (settings : GestaltSettings) (host : Host) (prompt : String) : Type 0 where
  pub mono : IsMonotone host
  pub prompt_clock :
      (n : ℕ) → host.clock (n + 1) < host.clock n + settings.events.approval_ttl_seconds * 1000000
  pub policy : AgentPolicyConfig
  pub policy_eq : Dict.get settings.agents "orchestrator" ≡ some policy
  pub mock : settings.models.enable_mock_llm ≡ true
  pub top_k_low : 1 ≤ settings.blackboard.semantic_top_k
  pub top_k_high : settings.blackboard.semantic_top_k ≤ 100
  pub prompt_text : 1 ≤ str_len prompt

-- The state's objective says something and its security risk is a score.
pub record IsSane (state : GestaltGraphState) : Type 0 where
  pub objective_long : 3 ≤ str_len state.objective
  pub objective_blank : is_blank (codes state.objective) ≡ false
  pub risk : in_score_range state.stats.security_risk_score ≡ true

-- Where a turn stands: the clock has not gone back since it started, and the bus is in memory.
pub record IsReady (host : Host) (started : Datetime) (s : Session) : Type 0 where
  pub later : started.instant ≤ host.clock s.world.ticks
  pub memory : IsMemory s.world.bus

-- An objective of three characters is not the empty text.
nonempty : (x : String) → 3 ≤ str_len x → str_eq x "" ≡ false
nonempty x long = elim (Bool-cases (str_eq x "")) [
  | inl same ↦ absurd (omega (arith, ap (λ (y : String). str_len y) ((str_eq_iff x "").0 same)))
  | inr other ↦ other
]

long_enough : (n : ℕ) (x : String) → n ≤ str_len x → min_length n x ≡ true
long_enough n x le = le→leb n (str_len x) le

module _ {settings : GestaltSettings} {host : Host} {prompt : String}
    (setup : IsSetUp settings host prompt) (state : GestaltGraphState) (sane : IsSane state) where
  records-Returns :
      (s : Session)
      → Returns
          (context_records settings host (orchestrator settings host prompt) state.objective)
          s
          (λ c t. t ≡ record s { world = record s.world { ticks = s.world.ticks + 2 } })
  unfolding context_records check_query Runtime.utc_now
  records-Returns s = record {
    value =
        (query_memory host.same_value host.uuid_text s.world.board
          (record {
            query = state.objective;
            mode = BlackboardQueryMode.hybrid;
            limit = settings.blackboard.semantic_top_k;
            filters = [];
          })
          (milliseconds host (record { instant = host.clock s.world.ticks; aware = true })
            (record { instant = host.clock (s.world.ticks + 1); aware = true }))).matches;
    final = record s { world = record s.world { ticks = s.world.ticks + 2 } };
    eq = ground (
      arith,
      long_enough 1 state.objective (omega (arith, sane.objective_long)),
      le→leb _ _ setup.top_k_low,
      le→leb _ _ setup.top_k_high,
    );
    holds = refl;
  }

  -- The context of the turn.
  pub context-Returns :
      (started : Datetime) (s : Session)
      → IsReady host started s
      → Returns (prepare_context settings host (orchestrator settings host prompt) state) s (λ c t.
        (c.trace_id ≡ state.trace_id) × (c.objective ≡ state.objective) × IsReady host started t)
  unfolding prepare_context check_envelope
  context-Returns started s ready =
      let me = orchestrator settings host prompt in
      let later : Session = record s { world = record s.world { ticks = s.world.ticks + 2 } } in
      bind-Returns (λ _ t. t ≡ later) _ _ _ s
        (subst
          (λ (b : Bool).
            Returns (if b then pure [] else context_records settings host me state.objective) s
              (λ _ t. t ≡ later))
          (sym (nonempty state.objective sane.objective_long)) (records-Returns s))
        λ records t same. record {
          value = record {
            trace_id = state.trace_id;
            cycle_id = state.cycle_id;
            objective = state.objective;
            source = state.source;
            latest_stats = state.stats;
            blackboard_context = records;
            inbound_commands = select (is_inbound settings host me) state.commands;
            approvals = t.approvals;
            metadata = state.metadata;
          };
          final = t;
          eq = ground (arith, long_enough 3 state.objective sane.objective_long);
          holds = (
            refl,
            refl,
            rw same (record {
              later =
                  le_trans ready.later
                    (setup.mono.later s.world.ticks (s.world.ticks + 2) (omega arith));
              memory = ready.memory;
            }),
          );
        }
