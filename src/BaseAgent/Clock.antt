-- ===== src/BaseAgent/Clock.antt =====
-- The lifecycle only moves the clock on, and keeps a bus in memory.
use gestalt_agentic_software.Events.Interface.{IsMemory}
use gestalt_agentic_software.BaseAgent.Turn.{attempt, seen}
use gestalt_agentic_software.BaseAgent.Outputs.{
  build_execution_report, persist_outputs, apply_state_update,
}
use gestalt_agentic_software.BaseAgent.Context.{
  build_input_messages, prepare_context, run_alignment_checks,
}
use gestalt_agentic_software.BaseAgent.Artifacts.{Agent, AgentArtifacts}
use gestalt_agentic_software.Runtime
use gestalt_agentic_software.Blackboard.{GestaltBlackboard}
use gestalt_agentic_software.Python.Exec.{
  Exec, ◌>>=◌, Result, continue, gets, lift, raised, pure, ok,
}
use gestalt_agentic_software.Protocol.Enums.{CommandStatus}
use gestalt_agentic_software.Protocol.Models.{Datetime, GestaltMessage}
use gestalt_agentic_software.Prelude.{◌≤◌, arith, List, ◌++◌, ◌≡◌, sym}
use gestalt_agentic_software.Protocol.Reports.{AgentContextEnvelope, GestaltGraphState}
use gestalt_agentic_software.Config.{GestaltSettings}
use mathlib.Core.Path.{subst}
use native.Mathlib.Nat.{le_trans}
use gestalt_agentic_software.Runtime.{Host, World, Session}

-- The clock has not gone back, and a bus in memory is still one.
pub record Goes (w v : World) : Type 0 where
  pub later : w.ticks ≤ v.ticks
  pub memory : IsMemory w.bus → IsMemory v.bus

pub Goes-refl : (w : World) → Goes w w
Goes-refl w = record { later = omega arith; memory = λ m. m }

pub Goes-trans : (u v w : World) → Goes u v → Goes v w → Goes u w
Goes-trans u v w a b = record {
  later = le_trans a.later b.later;
  memory = λ m. b.memory (a.memory m);
}

module _ (settings : GestaltSettings) (host : Host) (agent : Agent) where
  prepare_context-bus :
      (state : GestaltGraphState) (s : Session)
      → (prepare_context settings host agent state s).1.world.bus ≡ s.world.bus
  unfolding prepare_context
  prepare_context-bus state s = ground arith

  build_input_messages-bus :
      (context : AgentContextEnvelope) (state : GestaltGraphState) (w : World)
      → (build_input_messages settings host agent context state w).1.bus ≡ w.bus
  unfolding build_input_messages
  build_input_messages-bus context state w = ground arith

  pub build_execution_report-bus :
      (state : GestaltGraphState) (a : AgentArtifacts) (started : Datetime) (status : CommandStatus)
      (w : World)
      → (build_execution_report settings host agent state a started status w).1.bus ≡ w.bus
  unfolding build_execution_report
  build_execution_report-bus state a started status w = ground arith

  prepare_context-Goes :
      (state : GestaltGraphState) (s : Session)
      → Goes s.world (prepare_context settings host agent state s).1.world
  unfolding prepare_context
  prepare_context-Goes state s = record {
    later = ground arith;
    memory = λ m. subst IsMemory (sym (prepare_context-bus state s)) m;
  }

  build_input_messages-Goes :
      (context : AgentContextEnvelope) (state : GestaltGraphState) (w : World)
      → Goes w (build_input_messages settings host agent context state w).1
  unfolding build_input_messages
  build_input_messages-Goes context state w = record {
    later = ground arith;
    memory = λ m. subst IsMemory (sym (build_input_messages-bus context state w)) m;
  }

  build_execution_report-Goes :
      (state : GestaltGraphState) (a : AgentArtifacts) (started : Datetime) (status : CommandStatus)
      (w : World)
      → Goes w (build_execution_report settings host agent state a started status w).1
  unfolding build_execution_report
  build_execution_report-Goes state a started status w = record {
    later = ground arith;
    memory = λ m. subst IsMemory (sym (build_execution_report-bus state a started status w)) m;
  }

-- An action on a session that goes on in that way.
pub record Advances {A : Type 0} (m : Exec Session A) : Type 0 where
  pub at : (s : Session) → Goes s.world (m s).1.world

continue-Advances :
    {A B : Type 0} (r : Result A) (f : A → Exec Session B) (t : Session)
    → ((a : A) → Advances (f a))
    → Goes t.world (continue r f t).1.world
continue-Advances (ok a) f t h = (h a).at t
continue-Advances (raised e) f t h = Goes-refl t.world

pub bind-Advances :
    {A B : Type 0} (m : Exec Session A) (f : A → Exec Session B)
    → Advances m
    → ((a : A) → Advances (f a))
    → Advances (m >>= f)
bind-Advances m f hm hf = record {
  at = λ s. Goes-trans s.world (m s).1.world _ (hm.at s) (continue-Advances (m s).0 f (m s).1 hf);
}

pub lift-Advances : {A : Type 0} (r : Result A) → Advances (lift r)
lift-Advances r = record { at = λ s. Goes-refl s.world }

pub pure-Advances : {A : Type 0} (a : A) → Advances (pure a)
pure-Advances r = record { at = λ s. Goes-refl s.world }

pub gets-Advances : {A : Type 0} (f : Session → A) → Advances (gets f)
gets-Advances f = record { at = λ s. Goes-refl s.world }

pub on_board-Advances : {A : Type 0} (m : Exec GestaltBlackboard A) → Advances (Runtime.on_board m)
on_board-Advances m = record { at = λ s. record { later = omega arith; memory = λ k. k } }

pub on_world-Advances :
    {A : Type 0} (m : Exec World A) → ((w : World) → Goes w (m w).1) → Advances (Runtime.on_world m)
on_world-Advances m h = record { at = λ s. h s.world }

module _ (settings : GestaltSettings) (host : Host) (agent : Agent)
    (produce-Advances : (c : AgentContextEnvelope) (m : List GestaltMessage) (g : GestaltGraphState)
      → Advances (agent.produce_artifacts c m g)) where
  pub attempt-Advances :
      (started : Datetime) (state : GestaltGraphState)
      → Advances (attempt settings host agent started state)
  unfolding attempt
  attempt-Advances started state =
      bind-Advances (prepare_context settings host agent state) _
        (record { at = prepare_context-Goes settings host agent state })
        λ context.
          bind-Advances (lift (run_alignment_checks settings host agent context state)) _
            (lift-Advances _)
            λ _.
              bind-Advances
                (Runtime.on_world (build_input_messages settings host agent context state)) _
                (on_world-Advances _ (build_input_messages-Goes settings host agent context state))
                λ messages.
                  bind-Advances (gets (seen state)) _ (gets-Advances (seen state)) λ now_state.
                    bind-Advances (agent.produce_artifacts context messages now_state) _
                      (produce-Advances context messages now_state)
                      λ artifacts.
                        bind-Advances (Runtime.on_board (persist_outputs artifacts)) _
                          (on_board-Advances (persist_outputs artifacts))
                          λ _.
                            bind-Advances
                              (Runtime.on_world (
                                build_execution_report settings host agent state artifacts started
                                  CommandStatus.completed))
                              _
                              (on_world-Advances _ (
                                build_execution_report-Goes settings host agent state artifacts
                                  started CommandStatus.completed))
                              λ report.
                                bind-Advances (gets (seen state)) _ (gets-Advances (seen state))
                                  λ after. pure-Advances (
                                    apply_state_update after (messages ++ artifacts.messages)
                                      artifacts report)
