-- ===== src/Orchestrator/Success.antt =====
-- The orchestrator's `run` succeeds when its own logic does.
use gestalt_agentic_software.BaseAgent.Update.{IsUpdate}
use gestalt_agentic_software.Events.Interface.{IsMemory}
use gestalt_agentic_software.Orchestrator.Steps.{
  IsAfter, aligned, on_world-Returns, messages-Returns,
}
use gestalt_agentic_software.Protocol.Enums.{CommandStatus}
use gestalt_agentic_software.BaseAgent.Turn.{seen, attempt, run, recover}
use gestalt_agentic_software.Python.Returns.{Returns, bind-Returns, lift-Returns}
use gestalt_agentic_software.Orchestrator.Turn.{orchestrator}
use gestalt_agentic_software.Protocol.Validation.{check_report}
use gestalt_agentic_software.Python.Exec.{ok, Result, handle, Exec, ◌>>◌, ◌>>=◌, gets, pure}
use gestalt_agentic_software.Blackboard.{GestaltBlackboard}
use gestalt_agentic_software.BaseAgent.Outputs.{
  apply_state_update, persist_outputs, build_execution_report,
}
use gestalt_agentic_software.Protocol.Models.{GestaltMessage, Datetime}
use gestalt_agentic_software.Orchestrator.Setup.{IsSetUp, IsSane, IsReady, context-Returns}
use gestalt_agentic_software.Prelude.{
  List, String, ◌≤◌, str_len, ◌≡◌, none, true, ◌+◌, arith, le→leb, refl, ◌++◌, ap,
}
use gestalt_agentic_software.Runtime.{Host, Session, World}
use gestalt_agentic_software.Protocol.Reports.{GestaltGraphState, AgentContextEnvelope}
use gestalt_agentic_software.Config.{GestaltSettings}
use gestalt_agentic_software.BaseAgent.Artifacts.{AgentArtifacts}
use gestalt_agentic_software.Python.Dict.{string_key}
use gestalt_agentic_software.Runtime

module _ {settings : GestaltSettings} {host : Host} {prompt : String}
    (setup : IsSetUp settings host prompt) (state : GestaltGraphState) (sane : IsSane state)
    (Q : AgentArtifacts → Type 0) (long : (a : AgentArtifacts) → Q a → 8 ≤ str_len a.summary)
    (stored : (a : AgentArtifacts) (b : GestaltBlackboard)
      → Q a
      → persist_outputs a b ≡ (ok tt, b)) where
  report-Returns :
      (a : AgentArtifacts) (started : Datetime) (s : Session)
      → Q a
      → IsReady host started s
      → Returns
          (build_execution_report settings host
            (orchestrator settings host prompt)
            state
            a
            started
            CommandStatus.completed)
          s.world
          (λ r v. (r.agent_name ≡ "orchestrator") × IsAfter s.world v)
  unfolding build_execution_report check_report orchestrator Runtime.utc_now Runtime.new_uuid
  report-Returns a started s q ready = record {
    value = record {
      report_id = s.world.uuids;
      trace_id = state.trace_id;
      agent_name = "orchestrator";
      command_id = none;
      status = CommandStatus.completed;
      summary = a.summary;
      emitted_commands = a.commands;
      emitted_memories = a.memories;
      metrics = a.metrics;
      started_at = started;
      finished_at = record { instant = host.clock s.world.ticks; aware = true };
    };
    final = record s.world { ticks = s.world.ticks + 1; uuids = s.world.uuids + 1 };
    eq = ground (arith, le→leb 8 _ (long a q), ready.later);
    holds = (refl, record { later = omega arith; bus = refl });
  }

  -- The rest of the turn, from the artifacts on.
  abbrev store : Datetime → List GestaltMessage → AgentArtifacts → Exec Session GestaltGraphState
  store started m a = do
    Runtime.on_board (persist_outputs a)
    report ← Runtime.on_world (
        build_execution_report settings host (orchestrator settings host prompt) state a started
          CommandStatus.completed)
    after ← gets (seen state)
    pure (apply_state_update after (m ++ a.messages) a report)

  abbrev Ends : Datetime → GestaltGraphState → Session → Type 0
  Ends started g t = IsUpdate "orchestrator" Q state g × IsReady host started t

  store-Returns :
      (started : Datetime) (m : List GestaltMessage) (a : AgentArtifacts) (s : Session)
      → Q a
      → IsReady host started s
      → Returns (store started m a) s (Ends started)
  store-Returns started m a s q ready =
      bind-Returns (λ _ t. IsReady host started t) (Ends started)
        (Runtime.on_board (persist_outputs a)) _ s
        (record {
          value = tt;
          final = s;
          eq =
              ap
                (λ (x : Result (Unit {0}) × GestaltBlackboard).
                  (x.0, record s { world = record s.world { board = x.1 } }))
                (stored a s.world.board q);
          holds = ready;
        })
        λ v t r.
          bind-Returns _ (Ends started) _ _ t
            (on_world-Returns host setup.mono started _ _ t r (report-Returns a started t q r))
            λ report u r'. record {
              value =
                  apply_state_update (record state { approvals = u.approvals }) (m ++ a.messages) a
                    report;
              final = u;
              eq = refl;
              holds = (
                record {
                  approvals = u.approvals;
                  messages = m ++ a.messages;
                  artifacts = a;
                  report = report;
                  given = q;
                  named = r'.0;
                  is = refl;
                },
                r'.1,
              );
            }

  module _
      (produced : (c : AgentContextEnvelope) (m : List GestaltMessage) (started : Datetime)
          (s : Session)
        → IsReady host started s
        → Returns
            ((orchestrator settings host prompt).produce_artifacts c m (seen state s))
            s
            (λ a t. Q a × IsReady host started t)) where
    attempt-Returns :
        (started : Datetime) (s : Session)
        → IsReady host started s
        → Returns
            (attempt settings host (orchestrator settings host prompt) started state)
            s
            (Ends started)
    unfolding attempt
    attempt-Returns started s ready =
        let P = Ends started in
        bind-Returns _ P _ _ s (context-Returns setup state sane started s ready) λ c t1 r1.
          bind-Returns (λ _ t. IsReady host started t) P _ _ t1
            (lift-Returns _ _ tt t1 (aligned setup state sane c r1.0 r1.1) r1.2)
            λ u t2 r2.
              bind-Returns _ P _ _ t2
                (on_world-Returns host setup.mono started _ _ t2 r2
                  (messages-Returns setup state sane c t2.world))
                λ m t3 r3.
                  let produce = (orchestrator settings host prompt).produce_artifacts c m in
                  let k =
                    bind-Returns (λ a t. Q a × IsReady host started t) P (produce (seen state t3))
                      (store started m) t3 (produced c m started t3 r3.1)
                      (λ a t4 r4. store-Returns started m a t4 r4.0 r4.1) in
                  record { value = k.value; final = k.final; eq = k.eq; holds = k.holds }

    -- The orchestrator's turn returns the update by its artifacts.
    pub run-Returns :
        (w : World)
        → IsMemory w.bus
        → Returns
            (run settings host (orchestrator settings host prompt) state)
            w
            (λ g v. IsUpdate "orchestrator" Q state g × IsMemory v.bus)
    unfolding run Runtime.utc_now
    run-Returns w memory =
        let started : Datetime = record { instant = host.clock w.ticks; aware = true } in
        let s : Session = record {
          world = record w { ticks = w.ticks + 1 };
          approvals = state.approvals;
        } in
        let r = attempt-Returns started s (record {
          later = setup.mono.later w.ticks (w.ticks + 1) (omega arith);
          memory = memory;
        }) in
        record {
          value = r.value;
          final = r.final.world;
          eq =
              ap
                (λ (x : Result GestaltGraphState × Session).
                  let (y, t) =
                    handle x.0
                      (recover settings host (orchestrator settings host prompt) started state)
                      x.1 in
                  (y, t.world))
                r.eq;
          holds = (r.holds.0, r.holds.1.memory);
        }
