-- ===== src/Tools/Effects.antt =====
-- What a call of a tool does to the services: a way in which every tool changes them.
use gestalt_agentic_software.Tools.Everywhere.{bulk_register-Everywhere, get-Everywhere}
use gestalt_agentic_software.Python.Exec.{Result}
use gestalt_agentic_software.Tools.Permission.{execute_tool_cases}
use gestalt_agentic_software.Protocol.Reports.{GestaltGraphState}
use gestalt_agentic_software.Protocol.Models.{Metadata}
use gestalt_agentic_software.Runtime.{Host, World}
use gestalt_agentic_software.Config.{GestaltSettings}
use gestalt_agentic_software.Prelude.{String, All, List, inl, inr, sym}
use gestalt_agentic_software.Tools.Registry.{ToolRegistry, bulk_register, execute_tool}
use gestalt_agentic_software.Tools.Base.{BaseGestaltTool, ToolContext}
use gestalt_agentic_software.Python.Dict.{string_key}
use mathlib.Core.Path.{subst}

module _ {I T : Type 0} (R : World → World → Type 0) where
  -- A tool that changes the services in that way.
  pub record IsTame (tool : BaseGestaltTool World I T) : Type 0 where
    pub goes : (input : I) (c : ToolContext) (w : World) → R w (tool.arun input c w).1

  abbrev pub AreTame : ToolRegistry World I T → Type 0
  AreTame r = All (λ (entry : String × BaseGestaltTool World I T). IsTame entry.1) r.tools

  pub bulk_register-AreTame :
      (tools : List (BaseGestaltTool World I T)) (r : ToolRegistry World I T)
      → All (IsTame) tools
      → AreTame r
      → AreTame (bulk_register tools r)
  bulk_register-AreTame tools r = bulk_register-Everywhere (λ _ tool. IsTame tool) tools r

  -- So an agent's call of a tool changes them.
  pub execute_tool-tame :
      (settings : GestaltSettings) (host : Host) (caller : String) (r : ToolRegistry World I T)
      (name : String) (payload : Metadata) (state : GestaltGraphState)
      → ((w : World) → R w w)
      → AreTame r
      → (w : World) → R w (execute_tool settings host caller r name payload state w).1
  execute_tool-tame settings host caller r name payload state same tame w =
      elim (execute_tool_cases settings host caller r name payload state w) [
        | inl (p, e) ↦
            subst (λ (x : Result T × World). R w x.1) (sym e)
              ((get-Everywhere (λ _ tool. IsTame tool) r.tools name p.tool tame p.registered).goes
                p.accepted _ w)
        | inr (exc, e) ↦ subst (λ (x : Result T × World). R w x.1) (sym e) (same w)
      ]
