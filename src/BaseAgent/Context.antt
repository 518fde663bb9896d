-- ===== src/BaseAgent/Context.antt =====
-- gestalt/base_agent.py: what an agent is given: its context, the checks on it, and its messages.
use gestalt_agentic_software.Stats.Summary.{summary}
use gestalt_agentic_software.BaseAgent.Artifacts.{Agent}
use gestalt_agentic_software.Prelude.Int.{pos, ◌-ℤ◌}
use gestalt_agentic_software.Python.Values.{Values, nil, array, cons, str, Float, fields_of, object}
use gestalt_agentic_software.Protocol.Enums.{is_completed, GestaltMessageRole, BlackboardQueryMode}
use gestalt_agentic_software.Protocol.Validation.{check_envelope, check_message, check_query}
use gestalt_agentic_software.Protocol.Models.{
  Datetime, GestaltCommand, BlackboardMemoryRecord, GestaltMessage, Uuid, Metadata,
}
use gestalt_agentic_software.Protocol.Reports.{GestaltGraphState, AgentContextEnvelope}
use gestalt_agentic_software.Blackboard.{query_memory}
use gestalt_agentic_software.Config.{GestaltSettings}
use gestalt_agentic_software.Python.Exec.{
  Result, Exec, pure, ◌>>=◌, lift, raise_with, gets, key_error, ok, value_error, quoted,
}
use gestalt_agentic_software.Prelude.{
  String, List, [], some, Bool, if◌then◌else◌, none, ◌∷◌, is_blank, join, str_eq, codes, map, ◌&&◌,
  ◌+++◌, not, select, take, ◌==◌,
}
use gestalt_agentic_software.Python.Dict
use gestalt_agentic_software.Python.Dict.{Dict, string_key}
use gestalt_agentic_software.Runtime.{Host, World, Session}
use gestalt_agentic_software.Runtime

module _ (host : Host) where
  -- GestaltMessage(…), with its own id and time
  unfoldable pub make_message :
      Uuid → GestaltMessageRole → String → String → String → Metadata → Exec World GestaltMessage
  unfolding check_message Runtime.utc_now Runtime.new_uuid
  make_message trace_id role sender recipient content metadata = do
    id ← Runtime.new_uuid
    now ← Runtime.utc_now host
    lift (
        check_message (record {
          message_id = id;
          trace_id = trace_id;
          causation_id = none;
          role = role;
          sender = sender;
          recipient = recipient;
          content = content;
          metadata = metadata;
          created_at = now;
        }))

-- (ended - started).total_seconds() * 1000
abbrev pub milliseconds : Host → Datetime → Datetime → Float
milliseconds host started ended =
    let f = host.floats in
    f.mul (f.div (f.of_int (pos ended.instant -ℤ pos started.instant)) (f.of_int (pos 1000000)))
      (f.of_int (pos 1000))

-- self.settings.agents[self.agent_name].tool_allowlist
unfoldable pub allowed_tools : GestaltSettings → String → Result (List String)
allowed_tools settings agent_name = elim (Dict.get settings.agents agent_name) [
  | none ↦ raise_with key_error (quoted agent_name)
  | some policy ↦ ok policy.tool_allowlist
]

module _ (settings : GestaltSettings) (host : Host) (agent : Agent) where
  -- The records that the blackboard finds for the objective; it reads the clock twice.
  unfoldable pub context_records : String → Exec Session (List BlackboardMemoryRecord)
  unfolding query_memory check_query Runtime.utc_now
  context_records objective = do
    query ← lift (
        check_query (record {
          query = objective;
          mode = BlackboardQueryMode.hybrid;
          limit = settings.blackboard.semantic_top_k;
          filters = [];
        }))
    started ← Runtime.on_world (Runtime.utc_now host)
    board ← gets (λ s. s.world.board)
    ended ← Runtime.on_world (Runtime.utc_now host)
    pure
        (query_memory host.same_value host.uuid_text board query
          (milliseconds host started ended)).matches

  -- command.target_agent == self.agent_name and command.status != COMPLETED
  abbrev pub is_inbound : GestaltCommand → Bool
  is_inbound c = str_eq c.target_agent agent.agent_name && not (is_completed c.status)

  unfoldable pub prepare_context : GestaltGraphState → Exec Session AgentContextEnvelope
  unfolding context_records check_envelope is_completed
  prepare_context state = do
    records ← if str_eq state.objective "" then pure [] else context_records state.objective
    approvals ← gets (λ s. s.approvals)
    lift (
        check_envelope (record {
          trace_id = state.trace_id;
          cycle_id = state.cycle_id;
          objective = state.objective;
          source = state.source;
          latest_stats = state.stats;
          blackboard_context = records;
          inbound_commands = select is_inbound state.commands;
          approvals = approvals;
          metadata = state.metadata;
        }))

  unfoldable pub run_alignment_checks : AgentContextEnvelope → GestaltGraphState → Result (Unit {0})
  run_alignment_checks context state =
      if is_blank (codes context.objective)
      then raise_with value_error "Agent objective must not be empty."
      else elim (Dict.get settings.agents agent.agent_name) [
        | none ↦ raise_with value_error ("Agent '" +++ agent.agent_name +++ "' is not configured.")
        | some _ ↦
            if context.trace_id == state.trace_id
            then ok tt
            else raise_with value_error "Trace id mismatch between state and normalized context."
      ]

  abbrev texts : List String → Values
  texts [] = nil
  texts (s ∷ ss) = cons (str s) (texts ss)

  -- ", ".join(titles of the first five) or "none"
  abbrev context_titles : List BlackboardMemoryRecord → String
  context_titles records =
      let titles = join ", " (map (λ r. r.title) (take 5 records)) in
      if str_eq titles "" then "none" else titles

  unfoldable pub build_input_messages :
      AgentContextEnvelope → GestaltGraphState → Exec World (List GestaltMessage)
  unfolding allowed_tools make_message summary fields_of
  build_input_messages context state = do
    tools ← lift (allowed_tools settings agent.agent_name)
    system ←
        make_message host context.trace_id GestaltMessageRole.system "system" agent.agent_name
          agent.system_prompt (("allowed_tools", array (texts tools)) ∷ [])
    task ←
        make_message host context.trace_id GestaltMessageRole.orchestrator "orchestrator"
          agent.agent_name
          ("Objective: "
            +++ context.objective
            +++ "\nBlackboard context titles: "
            +++ context_titles context.blackboard_context
            +++ "\nCurrent stats: "
            +++ host.value_text (object (fields_of (summary state.stats))))
          []
    pure (system ∷ task ∷ [])
