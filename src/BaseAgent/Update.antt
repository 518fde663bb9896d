-- ===== src/BaseAgent/Update.antt =====
-- What a turn that ends well returns: the given state with the agent's artifacts.
use gestalt_agentic_software.BaseAgent.Context.{
  prepare_context, run_alignment_checks, build_input_messages,
}
use gestalt_agentic_software.BaseAgent.Outputs.{
  apply_state_update, build_execution_report, persist_outputs,
}
use gestalt_agentic_software.BaseAgent.Artifacts.{Agent, AgentArtifacts}
use gestalt_agentic_software.BaseAgent.Turn.{seen, attempt}
use mathlib.Core.Path.{subst}
use gestalt_agentic_software.Protocol.Enums.{CommandStatus}
use gestalt_agentic_software.Protocol.Models.{GestaltMessage, Datetime}
use gestalt_agentic_software.Protocol.Reports.{
  GestaltGraphState, EventApproval, AgentExecutionReport, AgentContextEnvelope,
}
use gestalt_agentic_software.Config.{GestaltSettings}
use gestalt_agentic_software.Python.Exec.{
  Exec, Result, pure, continue, ◌>>=◌, ok, raised, gets, lift,
}
use gestalt_agentic_software.Prelude.{String, ◌≡◌, List, ◌++◌, arith, refl}
use gestalt_agentic_software.Runtime.{Host, World, Session}
use gestalt_agentic_software.Runtime

-- The state after a turn that ended well: the given one with the artifacts, of which `Q` holds.
pub record IsUpdate (name : String) (Q : AgentArtifacts → Type 0) (before after : GestaltGraphState)
    : Type 0 where
  pub approvals : List EventApproval
  pub messages : List GestaltMessage
  pub artifacts : AgentArtifacts
  pub report : AgentExecutionReport
  pub given : Q artifacts
  pub named : report.agent_name ≡ name
  pub is :
      after ≡ apply_state_update (record before { approvals = approvals }) messages artifacts report

-- `m` gives only results of which `P` holds.
pub record Gives {A : Type 0} (P : A → Type 0) (m : Exec Session A) : Type 0 where
  pub at : (s : Session) (a : A) → (m s).0 ≡ ok a → P a

continue-Gives :
    {A B : Type 0} (P : B → Type 0) (r : Result A) (f : A → Exec Session B) (t : Session)
    → ((a : A) → r ≡ ok a → Gives P (f a))
    → (b : B) → (continue r f t).0 ≡ ok b
    → P b
continue-Gives P (ok a) f t h b q = (h a refl).at t b q
continue-Gives P (raised e) f t h b q = cc

pub bind-Gives :
    {A B : Type 0} (Q : A → Type 0) (P : B → Type 0) (m : Exec Session A) (f : A → Exec Session B)
    → Gives Q m
    → ((a : A) → Q a → Gives P (f a))
    → Gives P (m >>= f)
bind-Gives Q P m f g h = record {
  at = λ s. continue-Gives P (m s).0 f (m s).1 (λ a q. h a (g.at s a q));
}

-- Nothing is said of what `m` gives.
pub any-Gives : {A : Type 0} (m : Exec Session A) → Gives (λ _. Unit {0}) m
any-Gives m = record { at = λ s a q. tt }

pure-Gives : {A : Type 0} (P : A → Type 0) (a : A) → P a → Gives P (pure a)
pure-Gives P a p = record { at = λ s b q. let e : a ≡ b = cc in subst P e p }

-- The state as the turn sees it differs from the given one in its approvals only.
abbrev IsSeen : GestaltGraphState → GestaltGraphState → Type 0
IsSeen state g = (approvals : List EventApproval) × (g ≡ record state { approvals = approvals })

seen-Gives : (state : GestaltGraphState) → Gives (IsSeen state) (gets (seen state))
seen-Gives state = record { at = λ s g q. (s.approvals, cc) }

module _ (settings : GestaltSettings) (host : Host) (agent : Agent) where
  report_name :
      (state : GestaltGraphState) (a : AgentArtifacts) (started : Datetime) (status : CommandStatus)
      (w : World) (r : AgentExecutionReport)
      → (build_execution_report settings host agent state a started status w).0 ≡ ok r
      → (r.agent_name ≡ agent.agent_name) × (r.status ≡ status)
  unfolding build_execution_report
  report_name state a started status w r h = ground arith

  report-Gives :
      (state : GestaltGraphState) (a : AgentArtifacts) (started : Datetime) (status : CommandStatus)
      → Gives
          (λ r. (r.agent_name ≡ agent.agent_name) × (r.status ≡ status))
          (Runtime.on_world (build_execution_report settings host agent state a started status))
  report-Gives state a started status = record {
    at = λ s r q. report_name state a started status s.world r q;
  }

  pub attempt-IsUpdate :
      (Q : AgentArtifacts → Type 0)
      → ((c : AgentContextEnvelope) (m : List GestaltMessage) (g : GestaltGraphState)
          → Gives Q (agent.produce_artifacts c m g))
      → (started : Datetime) (state : GestaltGraphState)
      → Gives (IsUpdate agent.agent_name Q state) (attempt settings host agent started state)
  unfolding attempt
  attempt-IsUpdate Q produced started state =
      let P = IsUpdate agent.agent_name Q state in
      bind-Gives _ P (prepare_context settings host agent state) _
        (any-Gives (prepare_context settings host agent state))
        λ context _.
          bind-Gives _ P (lift (run_alignment_checks settings host agent context state)) _
            (any-Gives (lift (run_alignment_checks settings host agent context state)))
            λ _ _.
              bind-Gives _ P
                (Runtime.on_world (build_input_messages settings host agent context state)) _
                (any-Gives
                  (Runtime.on_world (build_input_messages settings host agent context state)))
                λ messages _.
                  bind-Gives _ P (gets (seen state)) _ (any-Gives (gets (seen state)))
                    λ now_state _.
                      bind-Gives _ P (agent.produce_artifacts context messages now_state) _
                        (produced context messages now_state)
                        λ artifacts q.
                          bind-Gives _ P (Runtime.on_board (persist_outputs artifacts)) _
                            (any-Gives (Runtime.on_board (persist_outputs artifacts)))
                            λ _ _.
                              bind-Gives _ P
                                (Runtime.on_world (
                                  build_execution_report settings host agent state artifacts started
                                    CommandStatus.completed))
                                _ (report-Gives state artifacts started CommandStatus.completed)
                                λ report named.
                                  bind-Gives _ P (gets (seen state)) _ (seen-Gives state)
                                    λ after is_seen.
                                      pure-Gives P
                                        (apply_state_update after (messages ++ artifacts.messages)
                                          artifacts report)
                                        (record {
                                          approvals = is_seen.0;
                                          messages = messages ++ artifacts.messages;
                                          artifacts = artifacts;
                                          report = report;
                                          given = q;
                                          named = named.0;
                                          is = rw is_seen.1 refl;
                                        })
