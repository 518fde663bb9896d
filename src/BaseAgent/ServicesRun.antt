-- ===== src/BaseAgent/ServicesRun.antt =====
-- An agent's calls of the tools and of the model, and the models that it makes, go on.
use mathlib.Core.Path.{subst}
use gestalt_agentic_software.Events.Interface.{IsMemory}
use gestalt_agentic_software.Protocol.Reports.{GestaltGraphState}
use gestalt_agentic_software.Tools.Effects.{AreTame, execute_tool-tame}
use gestalt_agentic_software.BaseAgent.Services.{
  model_preference, measured_of, executed_of, inspected_of, queried_of,
}
use gestalt_agentic_software.Gateway.{is_mocked, select_model}
use gestalt_agentic_software.Tools.Outputs.{ToolInput, ToolOutput}
use gestalt_agentic_software.BaseAgent.Clock.{Goes}
use gestalt_agentic_software.Protocol.Enums.{GestaltCommandType, MemoryKind}
use gestalt_agentic_software.BaseAgent.Behaves.{
  Runs, then-Behaves, lift-Runs, on_world-Runs, IsStep,
}
use gestalt_agentic_software.Tools.Registry.{ToolRegistry}
use gestalt_agentic_software.Stats.Model.{GestaltStats}
use gestalt_agentic_software.BaseAgent.Make.{make_command, make_memory}
use gestalt_agentic_software.Prelude.{String, Option, List, some, ℕ, arith, sym, ◌≡◌, refl}
use gestalt_agentic_software.Python.Exec.{Result, lift, ◌>>=◌}
use gestalt_agentic_software.Runtime.{Host, World}
use gestalt_agentic_software.Config.{GestaltSettings, ModelsConfig}
use gestalt_agentic_software.Protocol.Models.{Metadata, Uuid}
use gestalt_agentic_software.BaseAgent.Services
use gestalt_agentic_software.Gateway
use gestalt_agentic_software.Runtime

module _ {A : Type 0} (validate : Metadata → Result A) (host : Host) (config : ModelsConfig)
    (system user : String) (stats : GestaltStats) (preferred : Option String)
    (mock : Option Metadata) (w : World) where
  gateway-bus :
      (Gateway.complete_structured validate host config system user stats preferred mock w).1.bus
      ≡ w.bus
  unfolding Gateway.complete_structured
  gateway-bus = ground arith

  gateway-Goes :
      Goes w (Gateway.complete_structured validate host config system user stats preferred mock w).1
  unfolding Gateway.complete_structured
  gateway-Goes = record { later = ground arith; memory = λ m. subst IsMemory (sym gateway-bus) m }

  pub gateway-outside :
      (Gateway.complete_structured validate host config system user stats preferred mock
        w).1.outside
      ≡ w.outside
  unfolding Gateway.complete_structured
  gateway-outside = ground arith

module _ {R : World → World → Type 0} (laws : IsStep R) where
  module _ (settings : GestaltSettings) (host : Host) (caller : String) where
    pub complete_structured-Runs :
        {A : Type 0} (validate : Metadata → Result A) (system user : String) (stats : GestaltStats)
        (mock : Metadata)
        → Runs R (Services.complete_structured settings host caller validate system user stats mock)
    unfolding Services.complete_structured
    complete_structured-Runs validate system user stats mock =
        then-Behaves laws _ (lift (model_preference settings host caller)) _ (lift-Runs laws _)
          λ tier. on_world-Runs _ λ w.
            laws.quiet w _
              (gateway-Goes validate host settings.models system user stats (some tier) (some mock)
                w)
              (gateway-outside validate host settings.models system user stats (some tier)
                (some mock) w)

    module _ (tools : ToolRegistry World ToolInput ToolOutput) (tame : AreTame R tools)
        (state : GestaltGraphState) where
      call_tool-Runs :
          (name : String) (payload : Metadata)
          → Runs R (Services.call_tool settings host caller tools state name payload)
      unfolding Services.call_tool
      call_tool-Runs name payload =
          on_world-Runs _
            (execute_tool-tame R settings host caller tools name payload state laws.refl tame)

      -- A call of a tool, and the reading of its output.
      typed-Runs :
          {A : Type 0} (name : String) (payload : Metadata) (read : ToolOutput → Result A)
          → Runs R (
              Services.call_tool settings host caller tools state name payload >>= λ o.
              lift (read o))
      typed-Runs name payload read =
          then-Behaves laws _ (Services.call_tool settings host caller tools state name payload) _
            (call_tool-Runs name payload) (λ o. lift-Runs laws (read o))

      pub query_blackboard-Runs :
          (query : String) (limit : ℕ) (filters : Metadata)
          → Runs R (Services.query_blackboard settings host caller tools state query limit filters)
      unfolding Services.query_blackboard
      query_blackboard-Runs query limit filters = typed-Runs "blackboard_query" _ queried_of

      pub query_prometheus-Runs :
          (query : String)
          → Runs R (Services.query_prometheus settings host caller tools state query)
      unfolding Services.query_prometheus
      query_prometheus-Runs query = typed-Runs "prometheus_query" _ measured_of

      pub run_sandbox_command-Runs :
          (command directory : String) (timeout : ℕ)
          → Runs R (
              Services.run_sandbox_command settings host caller tools state command directory
                timeout)
      unfolding Services.run_sandbox_command
      run_sandbox_command-Runs command directory timeout =
          typed-Runs "sandbox_command" _ executed_of

      pub inspect_redis_stream-Runs :
          (stream : String) (count : ℕ)
          → Runs R (Services.inspect_redis_stream settings host caller tools state stream count)
      unfolding Services.inspect_redis_stream
      inspect_redis_stream-Runs stream count = typed-Runs "redis_stream_inspect" _ inspected_of

  module _ (host : Host) where
    pub make_command-Runs :
        (trace_id : Uuid) (type : GestaltCommandType) (issuer target rationale : String)
        (payload : Metadata)
        → Runs R (make_command host trace_id type issuer target rationale payload)
    unfolding make_command Runtime.utc_now Runtime.new_uuid
    make_command-Runs trace_id type issuer target rationale payload = record {
      goes = λ s. laws.quiet s.world _ (record { later = omega arith; memory = λ m. m }) refl;
      gives = λ s b e. tt;
    }

    pub make_memory-Runs :
        (trace_id : Uuid) (kind : MemoryKind) (title content : String) (tags : List String)
        (metadata : Metadata)
        → Runs R (make_memory host trace_id kind title content tags metadata)
    unfolding make_memory Runtime.utc_now Runtime.new_uuid
    make_memory-Runs trace_id kind title content tags metadata = record {
      goes = λ s. laws.quiet s.world _ (record { later = omega arith; memory = λ m. m }) refl;
      gives = λ s b e. tt;
    }
