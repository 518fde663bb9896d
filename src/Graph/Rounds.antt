-- ===== src/Graph/Rounds.antt =====
-- A cycle ends, after two nodes for each agent of its plan and one more.
use gestalt_agentic_software.Python.Dict
use gestalt_agentic_software.Graph.Ends.{
  IsEnded, IsFinish→IsEnded, visited, reporters-next, route_to, reporters, IsKnown-not_end,
  pending-next, visited-cons,
}
use gestalt_agentic_software.Graph.Specialist.{IsSpecialist, KeepsPlan, specialist-Returns}
use gestalt_agentic_software.BaseAgent.Turn.{run}
use gestalt_agentic_software.Graph.Plan.{run-IsFinish, run-IsRouting}
use gestalt_agentic_software.Python.Returns.{Returns, bind-Returns, weaken-Returns}
use gestalt_agentic_software.BaseAgent.Artifacts.{Agent}
use gestalt_agentic_software.Orchestrator.Setup.{IsSetUp, IsSane}
use gestalt_agentic_software.Python.Exec.{ok, Exec, ◌>>=◌, pure, raise, ExcKind, quoted}
use gestalt_agentic_software.Graph.Cycle.{
  AreSpecialists, IsRouted, specialist-IsSpecialist, IsRouting→IsRouted,
}
use gestalt_agentic_software.Runtime.{Host, World}
use gestalt_agentic_software.Config.{GestaltSettings}
use gestalt_agentic_software.Orchestrator.Agents.{
  pending_agents, scheduled_name, determine_next_agents, pending_of,
}
use gestalt_agentic_software.Orchestrator.Order.{
  IsKnown, plan-length, determine_next_agents-IsRoute,
}
use gestalt_agentic_software.Graph.{
  route_from_orchestrator, Specialists, orchestrate, follow, specialist, visit, suc,
}
use gestalt_agentic_software.Python.Values.{str}
use gestalt_agentic_software.Protocol.Reports.{GestaltGraphState}
use gestalt_agentic_software.Prelude.{
  List, String, map, ◌∷◌, ◌≡◌, [], some, ◌++◌, ap, refl, ◌∙◌, sym, Bool, none, Option, ℕ, length,
  ◌*◌, ◌+◌, ◌≤◌, All, arith, zero,
}
use gestalt_agentic_software.Python.Dict.{string_key, Dict}
use gestalt_agentic_software.Events.Interface.{IsMemory}
use mathlib.Core.Path.{subst}
use gestalt_agentic_software.Prelude.{if◌then◌else◌}

module _ {settings : GestaltSettings} {host : Host} {prompt : String} (agents : Specialists)
    (setup : IsSetUp settings host prompt) (good : AreSpecialists agents) where
  abbrev Cycle : List String → GestaltGraphState → GestaltGraphState → World → Type 0
  Cycle names state g v = IsEnded names state g × IsMemory v.bus

  finish-Returns :
      (enter : Agent → GestaltGraphState → Exec World GestaltGraphState) (state : GestaltGraphState)
      (w : World)
      → IsSane state
      → pending_agents state ≡ ok []
      → IsMemory w.bus
      → Returns
          (do
            after ← orchestrate settings host prompt agents state
            follow settings host prompt agents enter (route_from_orchestrator host after) after)
          w
          (Cycle [] state)
  finish-Returns enter state w sane pending bus =
      bind-Returns _ (Cycle [] state) _ _ w (run-IsFinish setup state sane w pending bus) λ g v r.
        let ended = IsFinish→IsEnded state g r.0 in
        subst
          (λ (n : String).
            Returns (follow settings host prompt agents enter n g) v (Cycle [] state))
          (sym (route_to host g "__end__" ended.0))
          (record { value = g; final = v; eq = refl; holds = (ended.1, r.1) })

  -- Into a specialist and on from there.
  enter-Returns :
      (again : GestaltGraphState → Exec World GestaltGraphState) (name : String)
      (rest : List String) (before state : GestaltGraphState) (w : World)
      → IsKnown name
      → IsSane before
      → IsRouted name rest before state
      → IsMemory w.bus
      → ((g : GestaltGraphState) (v : World)
          → IsSane g
          → pending_agents g ≡ ok (map str rest)
          → IsMemory v.bus
          → Returns (again g) v (Cycle rest g))
      → Returns
          (follow settings host prompt agents
            (λ node s. do next ← run settings host node s; again next)
            (route_from_orchestrator host state)
            state)
          w
          (Cycle (name ∷ rest) before)
  enter-Returns again name rest before state w known sane routed bus more =
      subst
        (λ (n : String).
          Returns (follow settings host prompt agents enter n state) w (Cycle (name ∷ rest) before))
        (sym (route_to host state name routed.next_node))
        (subst
          (λ (b : Bool).
            Returns
              (if b then pure state else elim (specialist agents name) [
                | none ↦ raise ExcKind.key_error (quoted name)
                | some node ↦ enter node state
              ])
              w (Cycle (name ∷ rest) before))
          (sym (IsKnown-not_end name known))
          (subst
            (λ (o : Option Agent).
              Returns
                (elim o [
                  | none ↦ raise ExcKind.key_error (quoted name)
                  | some node ↦ enter node state
                ])
                w (Cycle (name ∷ rest) before))
            (sym found.1)
            (bind-Returns _ (Cycle (name ∷ rest) before) _ again w
              (specialist-Returns settings setup.mono found.2 state w bus)
              λ g v r.
                weaken-Returns _ _ _ v (λ h u c. (longer h c.0 r.0, c.1))
                  (more g v (r.0.sane (routed.sane sane))
                    (pending-next g rest (r.0.pending ∙ routed.pending)) r.1))))
    where
      enter : Agent → GestaltGraphState → Exec World GestaltGraphState
      enter node s = do next ← run settings host node s; again next

      found : (node : Agent) × (specialist agents name ≡ some node) × IsSpecialist name node
      found = specialist-IsSpecialist agents name good known

      longer :
          {g : GestaltGraphState} (h : GestaltGraphState)
          → IsEnded rest g h
          → KeepsPlan name state g
          → IsEnded (name ∷ rest) before h
      longer {g} h e k = record {
        summary = e.summary;
        summary_eq = e.summary_eq;
        pending_actions = e.pending_actions;
        reports =
            e.reports
            ∙ ap (λ (l : List String). l ++ visited rest)
                (reporters-next state g k.reports.0 name k.reports.1 k.reports.2
                  ∙ ap (λ (l : List String). l ++ name ∷ [])
                      (reporters-next before state routed.reports.0 "orchestrator" routed.reports.1
                        routed.reports.2))
            ∙ visited-cons (reporters before) name rest;
      }

  -- With room for two nodes for each agent of the plan and one more, the cycle ends.
  visit-Returns :
      (names : List String) (limit : ℕ) (state : GestaltGraphState) (w : World)
      → length names * 2 + 1 ≤ limit
      → IsSane state
      → pending_agents state ≡ ok (map str names)
      → All IsKnown names
      → IsMemory w.bus
      → Returns (visit settings host prompt agents limit state) w (Cycle names state)
  unfolding visit
  visit-Returns [] zero state w room sane pending known bus = absurd (omega arith)
  visit-Returns [] (suc zero) state w room sane pending known bus =
      finish-Returns _ state w sane pending bus
  visit-Returns [] (suc (suc limit)) state w room sane pending known bus =
      finish-Returns _ state w sane pending bus
  visit-Returns (x ∷ xs) zero state w room sane pending known bus = absurd (omega arith)
  visit-Returns (x ∷ xs) (suc zero) state w room sane pending known bus = absurd (omega arith)
  visit-Returns (x ∷ xs) (suc (suc limit)) state w room sane pending (k, known) bus =
      bind-Returns _ (Cycle (x ∷ xs) state) _ _ w
        (run-IsRouting setup state sane x xs w pending k bus)
        λ g v r.
          enter-Returns (visit settings host prompt agents limit) x xs state g v k sane
            (IsRouting→IsRouted x xs state g r.0) r.1
            λ h u sane_h pending_h bus_h.
              visit-Returns xs limit h u (omega arith) sane_h pending_h known bus_h

  -- The cycle of a state without a plan follows the plan that is made, if that names nodes only.
  pub cycle_follows :
      (limit : ℕ) (state : GestaltGraphState) (w : World)
      → 13 ≤ limit
      → IsSane state
      → Dict.get state.metadata "pending_agents" ≡ none
      → All IsKnown (determine_next_agents state)
      → IsMemory w.bus
      → Returns
          (visit settings host prompt agents limit state)
          w
          (λ after v. IsEnded (determine_next_agents state) state after × IsMemory v.bus)
  cycle_follows limit state w room sane fresh known bus =
      visit-Returns (determine_next_agents state) limit state w (omega (arith, short)) sane planned
        known bus
    where
      short : length (determine_next_agents state) ≤ 6
      short = unfold determine_next_agents in plan-length state _

      planned : pending_agents state ≡ ok (map str (determine_next_agents state))
      planned = unfold pending_agents in ap (pending_of state) fresh

  -- A cycle that starts without a plan ends: with room for at least thirteen nodes the graph returns
  -- a state with a summary that leaves nothing pending, and the reports that were added are one of the
  -- orchestrator and one of the next agent of its plan in turn, in the order of the plan, then a last
  -- one of the orchestrator; a bus in memory stays one. It is assumed that the bus is in memory; that no
  -- agent is scheduled; that the objective is not blank and has at least three characters, and the
  -- security risk score is in its range; that the models are mocked, the orchestrator is configured and
  -- has a prompt, and the limit of the context query is between 1 and 100; that the clock never goes
  -- back, and between two readings moves on by less than an approval's lifetime; and that each
  -- specialist bears the name of its node, writes no metadata, reports a security risk in its range,
  -- turns no clock back and keeps a bus in memory.
  pub cycle_ends :
      (limit : ℕ) (state : GestaltGraphState) (w : World)
      → 13 ≤ limit
      → IsSane state
      → Dict.get state.metadata "pending_agents" ≡ none
      → scheduled_name (Dict.get state.metadata "scheduled_agent") ≡ none
      → IsMemory w.bus
      → Returns
          (visit settings host prompt agents limit state)
          w
          (λ after v. IsEnded (determine_next_agents state) state after × IsMemory v.bus)
  cycle_ends limit state w room sane fresh unscheduled bus =
      cycle_follows limit state w room sane fresh
        (determine_next_agents-IsRoute state unscheduled).known bus
