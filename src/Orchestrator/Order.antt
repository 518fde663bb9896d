-- ===== src/Orchestrator/Order.antt =====
-- What `determine_next_agents` returns.
use gestalt_agentic_software.Orchestrator.Distinct.{IsDistinct, dedupe-IsDistinct}
use gestalt_agentic_software.Python.Dict
use gestalt_agentic_software.Protocol.Reports.{GestaltGraphState}
use gestalt_agentic_software.Python.Exec.{ok}
use gestalt_agentic_software.Protocol.Enums.{AgentDecision}
use gestalt_agentic_software.Orchestrator.Agents.{
  dedupe, ordered_agents, decision_to_node, when_then, determine_next_agents, or_default_agents,
  scheduled_name, is_forced, plan,
}
use gestalt_agentic_software.Prelude.{
  List, String, mem_str, if◌then◌else◌, ◌∷◌, [], ◌++◌, ◌≡◌, false, Bool, arith, true, refl, sym,
  All, All-append, ◌≤◌, length, length-append, none, Option, some, ◌+◌,
}
use gestalt_agentic_software.Python.Dict.{string_key, Dict}
use mathlib.Core.Path.{subst}

-- A name that `DECISION_TO_NODE` has.
abbrev pub IsKnown : String → Type 0
IsKnown name = (d : AgentDecision) × (decision_to_node name ≡ ok d)

All-keep :
    (acc : List String) (a : String) (b : Bool)
    → All IsKnown acc
    → IsKnown a
    → All IsKnown (if b then acc else acc ++ a ∷ [])
All-keep acc a true h k = h
All-keep acc a false h k = All-append IsKnown acc (a ∷ []) h (k, tt)

All-dedupe : (xs acc : List String) → All IsKnown xs → All IsKnown acc → All IsKnown (dedupe acc xs)
unfolding dedupe
All-dedupe [] acc h k = k
All-dedupe (x ∷ xs) acc (p, h) k =
    All-dedupe xs (if mem_str x acc then acc else acc ++ x ∷ []) h
      (All-keep acc x (mem_str x acc) k p)

All-when : (b : Bool) (name : String) → IsKnown name → All IsKnown (when_then b name)
All-when true name k = (k, tt)
All-when false name k = tt

All-next :
    (b : Bool) (name : String) (rest : List String)
    → IsKnown name
    → All IsKnown rest
    → All IsKnown (when_then b name ++ rest)
All-next b name rest k h = All-append IsKnown (when_then b name) rest (All-when b name k) h

six-IsKnown :
    (m s a p o k : Bool)
    → All IsKnown (
        when_then m "monitor"
        ++ (when_then s "security_audit"
            ++ (when_then a "analyzer"
                ++ (when_then p "planner_executor"
                    ++ (when_then o "optimizer" ++ when_then k "knowledge")))))
unfolding decision_to_node
six-IsKnown m s a p o k =
    let r1 = when_then k "knowledge" in
    let r2 = when_then o "optimizer" ++ r1 in
    let r3 = when_then p "planner_executor" ++ r2 in
    let r4 = when_then a "analyzer" ++ r3 in
    let r5 = when_then s "security_audit" ++ r4 in
    All-next m "monitor" r5 (AgentDecision.monitor, refl)
      (All-next s "security_audit" r4 (AgentDecision.run_security_audit, refl)
        (All-next a "analyzer" r3 (AgentDecision.analyze, refl)
          (All-next p "planner_executor" r2 (AgentDecision.plan_and_execute, refl)
            (All-next o "optimizer" r1 (AgentDecision.optimize, refl)
              (All-when k "knowledge" (AgentDecision.curate_knowledge, refl))))))

ordered-IsKnown : (state : GestaltGraphState) → All IsKnown (ordered_agents state)
unfolding ordered_agents
ordered-IsKnown state = six-IsKnown _ _ _ _ _ _

or_default-IsKnown : (xs : List String) → All IsKnown xs → All IsKnown (or_default_agents xs)
unfolding decision_to_node
or_default-IsKnown [] h = ((_, refl), ((_, refl), ((_, refl), ((_, refl), tt))))
or_default-IsKnown (x ∷ xs) h = h

-- Dropping repeats never empties a list that has an element.
dedupe-keeps : (xs acc : List String) → 1 ≤ length acc → 1 ≤ length (dedupe acc xs)
unfolding dedupe
dedupe-keeps [] acc h = h
dedupe-keeps (x ∷ xs) acc h =
    dedupe-keeps xs (if mem_str x acc then acc else acc ++ x ∷ [])
      (ground (arith, length-append acc (x ∷ [])))

dedupe_nonempty : (xs : List String) → 1 ≤ length (dedupe [] (or_default_agents xs))
unfolding dedupe
dedupe_nonempty [] = omega arith
dedupe_nonempty (x ∷ xs) = dedupe-keeps xs (x ∷ []) (omega arith)

-- A route: it leads somewhere, to each agent at most once, and each is a node of the graph.
pub record IsRoute (names : List String) : Type 0 where
  pub nonempty : 1 ≤ length names
  pub distinct : IsDistinct names
  pub known : All IsKnown names

unforced-IsRoute :
    (state : GestaltGraphState) (forced : Bool)
    → IsRoute (
        if forced
        then "security_audit" ∷ []
        else dedupe [] (or_default_agents (ordered_agents state)))
unfolding decision_to_node IsDistinct
unforced-IsRoute state true = record {
  nonempty = omega arith;
  distinct = (refl, tt);
  known = ((_, refl), tt);
}
unforced-IsRoute state false = record {
  nonempty = dedupe_nonempty (ordered_agents state);
  distinct = (dedupe-IsDistinct (or_default_agents (ordered_agents state))).0;
  known =
      All-dedupe (or_default_agents (ordered_agents state)) []
        (or_default-IsKnown _ (ordered-IsKnown state)) tt;
}

-- Unless the metadata names a scheduled agent, the agents that the orchestrator plans are at least
-- one, no two of them the same, and all of them known to `DECISION_TO_NODE`.
pub determine_next_agents-IsRoute :
    (state : GestaltGraphState)
    → scheduled_name (Dict.get state.metadata "scheduled_agent") ≡ none
    → IsRoute (determine_next_agents state)
unfolding determine_next_agents
determine_next_agents-IsRoute state unscheduled =
    subst (λ (o : Option String). IsRoute (plan state o)) (sym unscheduled)
      (unforced-IsRoute state (is_forced (Dict.get state.metadata "force_audit")))

dedupe-length : (xs acc : List String) → length (dedupe acc xs) ≤ length acc + length xs
unfolding dedupe
dedupe-length [] acc = omega arith
dedupe-length (x ∷ xs) acc = ground (
  arith,
  length-append acc (x ∷ []),
  dedupe-length xs (if mem_str x acc then acc else acc ++ x ∷ []),
)

when-length : (b : Bool) (name : String) → length (when_then b name) ≤ 1
when-length true name = omega arith
when-length false name = omega arith

or_default-length : (xs : List String) → length xs ≤ 6 → length (or_default_agents xs) ≤ 6
or_default-length [] h = omega arith
or_default-length (x ∷ xs) h = h

six-length :
    (m s a p o k : Bool)
    → length (
        when_then m "monitor"
        ++ (when_then s "security_audit"
            ++ (when_then a "analyzer"
                ++ (when_then p "planner_executor"
                    ++ (when_then o "optimizer" ++ when_then k "knowledge")))))
      ≤ 6
six-length m s a p o k = ground arith

ordered-length : (state : GestaltGraphState) → length (ordered_agents state) ≤ 6
unfolding ordered_agents
ordered-length state = six-length _ _ _ _ _ _

-- No plan has more than six agents.
pub plan-length :
    (state : GestaltGraphState) (scheduled : Option String) → length (plan state scheduled) ≤ 6
plan-length state (some name) = omega arith
plan-length state none = ground (
  arith,
  dedupe-length (or_default_agents (ordered_agents state)) [],
  or_default-length (ordered_agents state) (ordered-length state),
)
