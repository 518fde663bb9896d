-- ===== src/Orchestrator/Steps.antt =====
-- The steps of the orchestrator's turn that succeed in any state: the checks, the messages, the approval.
use gestalt_agentic_software.Orchestrator.Turn.{orchestrator}
use gestalt_agentic_software.Python.Returns.{Returns, bind-Returns, lift-Returns}
use gestalt_agentic_software.Protocol.Reports.{GestaltGraphState, AgentContextEnvelope}
use gestalt_agentic_software.Protocol.Enums.{GestaltMessageRole}
use gestalt_agentic_software.Python.Exec.{Exec, ok, Result}
use gestalt_agentic_software.Orchestrator.Setup.{IsSetUp, IsSane, IsReady}
use gestalt_agentic_software.Protocol.Models.{Datetime, Uuid, Metadata}
use gestalt_agentic_software.Protocol.Validation.{check_message}
use gestalt_agentic_software.BaseAgent.Failure.{IsMonotone}
use gestalt_agentic_software.Prelude.{
  String, ◌∙◌, ◌≤◌, ◌≡◌, str_len, ◌+++◌, ap, arith, none, true, ◌+◌, le→leb, ◌∷◌, [], refl,
  is_blank, codes, false, ◌==◌, ==_iff,
}
use gestalt_agentic_software.Config.{GestaltSettings}
use gestalt_agentic_software.BaseAgent.Context.{
  make_message, allowed_tools, build_input_messages, run_alignment_checks,
}
use gestalt_agentic_software.Runtime.{Host, World, Session}
use gestalt_agentic_software.Python.Dict.{string_key}
use gestalt_agentic_software.Runtime
use native.Mathlib.Nat.{le_trans}
use text.Mathlib.TextLemmas.{length-append as count-append}

-- The clock has not gone back and the bus is the same one.
pub record IsAfter (w v : World) : Type 0 where
  pub later : w.ticks ≤ v.ticks
  pub bus : v.bus ≡ w.bus

IsAfter-trans : (u v w : World) → IsAfter u v → IsAfter v w → IsAfter u w
IsAfter-trans u v w a b = record { later = le_trans a.later b.later; bus = b.bus ∙ a.bus }

pub on_world-Returns :
    {A : Type 0} (host : Host) (mono : IsMonotone host) (started : Datetime) (P : A → Type 0)
    (m : Exec World A) (s : Session)
    → IsReady host started s
    → Returns m s.world (λ a w. P a × IsAfter s.world w)
    → Returns (Runtime.on_world m) s (λ a t. P a × IsReady host started t)
on_world-Returns host mono started P m s ready r = record {
  value = r.value;
  final = record s { world = r.final };
  eq = ap (λ (x : Result _ × World). (x.0, record s { world = x.1 })) r.eq;
  holds = (
    r.holds.0,
    record {
      later = le_trans ready.later (mono.later _ _ r.holds.1.later);
      memory = record { held = ready.memory.held; eq = r.holds.1.bus ∙ ready.memory.eq };
    },
  );
}

pub message-Returns :
    (host : Host) (trace_id : Uuid) (role : GestaltMessageRole) (sender recipient content : String)
    (metadata : Metadata) (w : World)
    → 2 ≤ str_len sender
    → 2 ≤ str_len recipient
    → 1 ≤ str_len content
    → Returns
        (make_message host trace_id role sender recipient content metadata)
        w
        (λ m v. Unit {0} × IsAfter w v)
unfolding make_message check_message Runtime.utc_now Runtime.new_uuid
message-Returns host trace_id role sender recipient content metadata w a b c = record {
  value = record {
    message_id = w.uuids;
    trace_id = trace_id;
    causation_id = none;
    role = role;
    sender = sender;
    recipient = recipient;
    content = content;
    metadata = metadata;
    created_at = record { instant = host.clock w.ticks; aware = true };
  };
  final = record w { uuids = w.uuids + 1; ticks = w.ticks + 1 };
  eq = ground (arith, le→leb 2 _ a, le→leb 2 _ b, le→leb 1 _ c);
  holds = (tt, record { later = omega arith; bus = refl });
}

module _ {settings : GestaltSettings} {host : Host} {prompt : String}
    (setup : IsSetUp settings host prompt) (state : GestaltGraphState) (sane : IsSane state) where
  pub aligned :
      (c : AgentContextEnvelope)
      → c.trace_id ≡ state.trace_id
      → c.objective ≡ state.objective
      → run_alignment_checks settings host (orchestrator settings host prompt) c state ≡ ok tt
  unfolding run_alignment_checks orchestrator
  aligned c trace objective = ground (arith, trace, objective, blank, setup.policy_eq, same)
    where
      blank : is_blank (codes c.objective) ≡ false
      blank = rw objective sane.objective_blank

      same : (c.trace_id == state.trace_id) ≡ true
      same = (==_iff c.trace_id state.trace_id).1 trace

  tools_eq : allowed_tools settings "orchestrator" ≡ ok setup.policy.tool_allowlist
  unfolding allowed_tools orchestrator
  tools_eq = ground (arith, setup.policy_eq)

  task_long : (x : String) → 1 ≤ str_len ("Objective: " +++ x)
  task_long x = omega (arith, count-append "Objective: " x)

  pub messages-Returns :
      (c : AgentContextEnvelope) (w : World)
      → Returns
          (build_input_messages settings host (orchestrator settings host prompt) c state)
          w
          (λ ms v. Unit {0} × IsAfter w v)
  unfolding build_input_messages orchestrator
  messages-Returns c w =
      bind-Returns _ _ _ _ w
        (lift-Returns (λ _ v. IsAfter w v) _ _ w tools_eq
          (record { later = omega arith; bus = refl }))
        λ tools v a.
          bind-Returns _ _ _ _ v
            (message-Returns host c.trace_id GestaltMessageRole.system "system" "orchestrator"
              prompt _ v (omega arith) (omega arith) setup.prompt_text)
            λ system u b.
              bind-Returns _ _ _ _ u
                (message-Returns host c.trace_id GestaltMessageRole.orchestrator "orchestrator"
                  "orchestrator" _ _ u (omega arith) (omega arith) (task_long _))
                λ task t d. record {
                  value = system ∷ task ∷ [];
                  final = t;
                  eq = refl;
                  holds = (tt, IsAfter-trans w u t (IsAfter-trans w v u a b.1) d.1);
                }
