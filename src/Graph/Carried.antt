-- ===== src/Graph/Carried.antt =====
-- A cycle carries over what holds of the calls that have left the program, if the specialists do.
use gestalt_agentic_software.Protocol.Validation.{check_approval}
use gestalt_agentic_software.Runtime
use gestalt_agentic_software.Orchestrator.Unsent.{produce-Runs}
use gestalt_agentic_software.Orchestrator.Turn.{orchestrator}
use gestalt_agentic_software.BaseAgent.Behaves.{Runs}
use gestalt_agentic_software.Protocol.Models.{GestaltMessage}
use gestalt_agentic_software.Protocol.Reports.{
  AgentContextEnvelope, GestaltGraphState, CycleRequest, EventApproval,
}
use gestalt_agentic_software.Config.{GestaltSettings}
use gestalt_agentic_software.Prelude.{
  ◌≡◌, String, sym, some, Bool, List, Option, Bool-cases, ℕ, str_eq, inl, zero, refl, inr,
  Option-cases, none, true, false, [],
}
use gestalt_agentic_software.BaseAgent.Carried.{IsCarried, run-carried}
use gestalt_agentic_software.Python.Exec.{
  Exec, Result, ◌>>=◌, continue, ok, raised, pure, raise, key_error, lift, quoted,
}
use gestalt_agentic_software.BaseAgent.Artifacts.{Agent}
use gestalt_agentic_software.Runtime.{World, Host}
use gestalt_agentic_software.Graph.{
  specialist, Specialists, run, follow, orchestrate, visit, suc, out_of_steps,
  route_from_orchestrator, build_graph_state, revalidate, run_cycle, ◌∷◌,
}
use mathlib.Core.Option.{some-injective}
use mathlib.Core.Path.{subst}
use gestalt_agentic_software.Prelude.{if◌then◌else◌}

-- What holds of the six agents holds of the one that an edge leads to.
pub specialist-all :
    (P : Agent → Type 0) (agents : Specialists)
    → P agents.monitor
    → P agents.analyzer
    → P agents.planner_executor
    → P agents.optimizer
    → P agents.knowledge
    → P agents.security_audit
    → (name : String) (agent : Agent) → specialist agents name ≡ some agent
    → P agent
unfolding specialist
specialist-all P agents m a p o k s name agent = pick (str_eq name "monitor") agents.monitor _ m (
    pick (str_eq name "analyzer") agents.analyzer _ a (
      pick (str_eq name "planner_executor") agents.planner_executor _ p (
        pick (str_eq name "optimizer") agents.optimizer _ o (
          pick (str_eq name "knowledge") agents.knowledge _ k
            (pick (str_eq name "security_audit") agents.security_audit none s (λ e. cc))))))
  where
    pick :
        (b : Bool) (first : Agent) (rest : Option Agent)
        → P first
        → (rest ≡ some agent → P agent)
        → (if b then some first else rest) ≡ some agent
        → P agent
    pick true first rest h other e = subst P (some-injective _ _ e) h
    pick false first rest h other e = other e

-- From all services the action changes them in the way `R`.
pub record Moves (R : World → World → Type 0) {A : Type 0} (m : Exec World A) : Type 0 where
  pub at : (w : World) → R w (m w).1

module _ {R : World → World → Type 0} (carried : IsCarried R) where
  next-moves :
      {A B : Type 0} (r : Result A) (f : A → Exec World B) (w : World)
      → ((a : A) → Moves R (f a))
      → R w (continue r f w).1
  next-moves (ok a) f w h = (h a).at w
  next-moves (raised e) f w h = carried.refl w

  bind-Moves :
      {A B : Type 0} (m : Exec World A) (f : A → Exec World B)
      → Moves R m
      → ((a : A) → Moves R (f a))
      → Moves R (m >>= f)
  bind-Moves m f h k = record {
    at = λ w. carried.trans w (m w).1 _ (h.at w) (next-moves (m w).0 f (m w).1 k);
  }

  stays-Moves : {A : Type 0} (m : Exec World A) → ((w : World) → (m w).1 ≡ w) → Moves R m
  stays-Moves m h = record { at = λ w. subst (λ (v : World). R w v) (sym (h w)) (carried.refl w) }

  module _ (settings : GestaltSettings) (host : Host) (prompt : String) (agents : Specialists)
      (specialists-Run : (name : String) (agent : Agent)
        → specialist agents name ≡ some agent
        → (c : AgentContextEnvelope) (m : List GestaltMessage) (g : GestaltGraphState)
        → Runs R (agent.produce_artifacts c m g)) where
    orchestrate-Moves :
        (state : GestaltGraphState) → Moves R (orchestrate settings host prompt agents state)
    orchestrate-Moves state = record {
      at =
          run-carried carried settings host (orchestrator settings host prompt)
            (produce-Runs carried settings host prompt) state;
    }

    follow-Moves :
        (enter : Agent → GestaltGraphState → Exec World GestaltGraphState) (name : String)
        (state : GestaltGraphState)
        → ((agent : Agent) → specialist agents name ≡ some agent → Moves R (enter agent state))
        → Moves R (follow settings host prompt agents enter name state)
    follow-Moves enter name state h = elim (Bool-cases (str_eq name "__end__")) [
      | inl end ↦ rw end (stays-Moves (pure state) (λ w. refl))
      | inr more ↦ elim (Option-cases (specialist agents name)) [
        | inl missing ↦ rw (more, missing) (stays-Moves (raise key_error (quoted name)) (λ w. refl))
        | inr (agent, found) ↦ rw (more, found) (h agent found)
      ]
    ]

    turn-Moves :
        (agent : Agent) (name : String)
        → specialist agents name ≡ some agent
        → (state : GestaltGraphState) → Moves R (run settings host agent state)
    turn-Moves agent name found state = record {
      at = run-carried carried settings host agent (specialists-Run name agent found) state;
    }

    pub visit-Moves :
        (limit : ℕ) (state : GestaltGraphState)
        → Moves R (visit settings host prompt agents limit state)
    unfolding visit
    visit-Moves zero state = stays-Moves (out_of_steps settings host prompt agents) (λ w. refl)
    visit-Moves (suc zero) state = bind-Moves _ _ (orchestrate-Moves state) λ after.
        follow-Moves (λ _ _. out_of_steps settings host prompt agents)
          (route_from_orchestrator host after) after
          (λ agent found. stays-Moves (out_of_steps settings host prompt agents) (λ w. refl))
    visit-Moves (suc (suc limit)) state = bind-Moves _ _ (orchestrate-Moves state) λ after.
        follow-Moves
          (λ agent g. run settings host agent g >>= visit settings host prompt agents limit)
          (route_from_orchestrator host after) after
          (λ agent found. bind-Moves _ _ (turn-Moves agent _ found after) (visit-Moves limit))

    revalidate-Moves : (approvals : List EventApproval) → Moves R (revalidate host approvals)
    unfolding revalidate
    revalidate-Moves [] = stays-Moves (pure tt) (λ w. refl)
    revalidate-Moves (a ∷ as') = bind-Moves (Runtime.utc_now host) _ now-Moves λ now.
        bind-Moves (lift (check_approval now.instant a)) _ (stays-Moves _ (λ w. refl))
          λ _. revalidate-Moves as'
      where
        now-Moves : Moves R (Runtime.utc_now host)
        now-Moves = unfold Runtime.utc_now in record { at = λ w. carried.unsent w _ refl }

    start-Moves : (request : CycleRequest) → Moves R (build_graph_state host request)
    unfolding build_graph_state
    start-Moves request = record { at = λ w. carried.unsent w _ refl }

    pub run_cycle-Moves :
        (limit : ℕ) (request : CycleRequest)
        → Moves R (run_cycle settings host prompt agents limit request)
    unfolding run_cycle
    run_cycle-Moves limit request = bind-Moves _ _ (start-Moves request) λ state.
        bind-Moves _ _ (visit-Moves limit state) λ result.
          bind-Moves (revalidate host result.approvals) _ (revalidate-Moves result.approvals)
            λ _. stays-Moves (pure result) (λ w. refl)
