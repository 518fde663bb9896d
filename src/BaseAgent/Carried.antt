-- ===== src/BaseAgent/Carried.antt =====
-- A turn carries over what holds of the calls that have left the program.
use gestalt_agentic_software.BaseAgent.Outputs.{
  build_execution_report, persist_outputs, apply_state_update,
}
use gestalt_agentic_software.Protocol.Enums.{CommandStatus}
use gestalt_agentic_software.BaseAgent.Turn.{attempt, run, recover, seen}
use gestalt_agentic_software.BaseAgent.Context.{
  build_input_messages, prepare_context, run_alignment_checks,
}
use gestalt_agentic_software.Protocol.Models.{GestaltMessage, Datetime}
use gestalt_agentic_software.Protocol.Reports.{AgentContextEnvelope, GestaltGraphState}
use gestalt_agentic_software.BaseAgent.Artifacts.{Agent, AgentArtifacts, check_artifacts}
use gestalt_agentic_software.Config.{GestaltSettings}
use gestalt_agentic_software.Python.Exec.{Exec, Exc, Result, handle, lift, ok, raised, gets}
use gestalt_agentic_software.BaseAgent.Behaves.{
  IsStep, Runs, then-Behaves, lift-Runs, on_board-Runs, pure-Runs,
}
use gestalt_agentic_software.Prelude.{All, List, ◌≡◌, sym, arith, true, ◌+◌, refl, ◌++◌}
use gestalt_agentic_software.Runtime.{OutsideCall, World, Host, Session}
use mathlib.Core.Path.{subst}
use gestalt_agentic_software.Runtime

-- A way to change the services that may be repeated and that allows every step without a call.
pub record IsCarried (R : World → World → Type 0) : Type 0 where
  pub refl : (w : World) → R w w
  pub trans : (u v w : World) → R u v → R v w → R u w
  pub unsent : (w v : World) → v.outside ≡ w.outside → R w v

pub IsCarried→IsStep : {R : World → World → Type 0} → IsCarried R → IsStep R
IsCarried→IsStep c = record { refl = c.refl; trans = c.trans; quiet = λ w v g e. c.unsent w v e }

-- Each call that has left the program is such that `P`, if each that had left it before is.
pub record Carries (P : OutsideCall → Type 0) (w v : World) : Type 0 where
  pub keeps : All P w.outside → All P v.outside

pub Carries-IsCarried : (P : OutsideCall → Type 0) → IsCarried (Carries P)
Carries-IsCarried P = record {
  refl = λ w. record { keeps = λ h. h };
  trans = λ u v w a b. record { keeps = λ h. b.keeps (a.keeps h) };
  unsent = λ w v e. record { keeps = λ h. subst (λ (l : List OutsideCall). All P l) (sym e) h };
}

module _ {R : World → World → Type 0} (carried : IsCarried R) where
  abbrev laws : IsStep R
  laws = IsCarried→IsStep carried

  pub unsent-Runs :
      {A : Type 0} (m : Exec Session A)
      → ((s : Session) → (m s).1.world.outside ≡ s.world.outside)
      → Runs R m
  unsent-Runs m h = record { goes = λ s. carried.unsent s.world _ (h s); gives = λ s a e. tt }

  module _ (settings : GestaltSettings) (host : Host) (agent : Agent)
      (produce : (c : AgentContextEnvelope) (m : List GestaltMessage) (g : GestaltGraphState)
        → Runs R (agent.produce_artifacts c m g)) where
    prepare-Runs : (state : GestaltGraphState) → Runs R (prepare_context settings host agent state)
    prepare-Runs state = unsent-Runs _ λ s. same s
      where
        same :
            (s : Session)
            → (prepare_context settings host agent state s).1.world.outside ≡ s.world.outside
        same s = unfold prepare_context in ground arith

    messages-Runs :
        (c : AgentContextEnvelope) (state : GestaltGraphState)
        → Runs R (Runtime.on_world (build_input_messages settings host agent c state))
    messages-Runs c state = unsent-Runs _ λ s. same s.world
      where
        same :
            (w : World) → (build_input_messages settings host agent c state w).1.outside ≡ w.outside
        same w = unfold build_input_messages in ground arith

    report-Runs :
        (state : GestaltGraphState) (a : AgentArtifacts) (started : Datetime)
        (status : CommandStatus)
        → Runs R
            (Runtime.on_world (build_execution_report settings host agent state a started status))
    report-Runs state a started status = unsent-Runs _ λ s. same s.world
      where
        same :
            (w : World)
            → (build_execution_report settings host agent state a started status w).1.outside
              ≡ w.outside
        same w = unfold build_execution_report in ground arith

    attempt-Runs :
        (started : Datetime) (state : GestaltGraphState)
        → Runs R (attempt settings host agent started state)
    unfolding attempt
    attempt-Runs started state = then-Behaves laws _ _ _ (prepare-Runs state) λ c.
        then-Behaves laws _ (lift (run_alignment_checks settings host agent c state)) _
          (lift-Runs laws _)
          λ _. then-Behaves laws _ _ _ (messages-Runs c state) λ ms.
            then-Behaves laws _ (gets (seen state)) _ (unsent-Runs _ (λ s. refl)) λ now_state.
              then-Behaves laws _ _ _ (produce c ms now_state) λ a.
                then-Behaves laws _ (Runtime.on_board (persist_outputs a)) _ (on_board-Runs laws _)
                  λ _.
                    then-Behaves laws _ _ _ (report-Runs state a started CommandStatus.completed)
                      λ r.
                        then-Behaves laws _ (gets (seen state)) _ (unsent-Runs _ (λ s. refl))
                          λ after. pure-Runs laws (apply_state_update after (ms ++ a.messages) a r)

    recover-Runs :
        (started : Datetime) (state : GestaltGraphState) (exc : Exc)
        → Runs R (recover settings host agent started state exc)
    recover-Runs started state exc = unsent-Runs _ λ s. same s
      where
        same :
            (s : Session)
            → (recover settings host agent started state exc s).1.world.outside ≡ s.world.outside
        same s = unfold recover check_artifacts build_execution_report in ground arith

    handled :
        (started : Datetime) (state : GestaltGraphState) (r : Result GestaltGraphState)
        (s : Session)
        → R s.world (handle r (recover settings host agent started state) s).1.world
    handled started state (ok g) s = carried.refl s.world
    handled started state (raised exc) s = (recover-Runs started state exc).goes s

    -- A whole turn of an agent.
    pub run-carried :
        (state : GestaltGraphState) (w : World) → R w (run settings host agent state w).1
    unfolding run Runtime.utc_now
    run-carried state w =
        let started : Datetime = record { instant = host.clock w.ticks; aware = true } in
        let s : Session = record {
          world = record w { ticks = w.ticks + 1 };
          approvals = state.approvals;
        } in
        let (r, t) = attempt settings host agent started state s in
        carried.trans w s.world _ (carried.unsent w s.world refl) (
          carried.trans s.world t.world _ ((attempt-Runs started state).goes s)
            (handled started state r t))
