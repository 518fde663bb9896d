-- ===== src/Tools/Everywhere.antt =====
-- What holds of each tool of a registry, under its name.
use gestalt_agentic_software.Tools.Registry.{bulk_register, register, ToolRegistry}
use gestalt_agentic_software.Tools.Base.{BaseGestaltTool, tool_name}
use gestalt_agentic_software.Prelude.{
  String, All, ◌≡◌, some, List, ◌∷◌, Bool, [], str_eq, if◌then◌else◌, str_eq_iff, sym, true, false,
  refl,
}
use gestalt_agentic_software.Python.Dict
use gestalt_agentic_software.Python.Dict.{Dict, string_key}
use mathlib.Core.Path.{subst}
use mathlib.Core.Option.{some-injective}

module _ {S I T : Type 0} (Q : String → BaseGestaltTool S I T → Type 0) where
  abbrev pub Everywhere : Dict String (BaseGestaltTool S I T) → Type 0
  Everywhere d = All (λ (entry : String × BaseGestaltTool S I T). Q entry.0 entry.1) d

  pub get-Everywhere :
      (d : Dict String (BaseGestaltTool S I T)) (name : String) (tool : BaseGestaltTool S I T)
      → Everywhere d
      → Dict.get d name ≡ some tool
      → Q name tool
  unfolding Dict.get
  get-Everywhere [] name tool h e = cc
  get-Everywhere ((k, v) ∷ d) name tool (q, h) e =
      pick (str_eq k name) refl (get-Everywhere d name tool h) e
    where
      pick :
          (b : Bool)
          → str_eq k name ≡ b
          → (Dict.get d name ≡ some tool → Q name tool)
          → (if b then some v else Dict.get d name) ≡ some tool
          → Q name tool
      pick true same later found =
          subst (λ (n : String). Q n tool) ((str_eq_iff k name).0 same)
            (subst (λ (t : BaseGestaltTool S I T). Q k t) (some-injective _ _ found) q)
      pick false other later found = later found

  put-Everywhere :
      (d : Dict String (BaseGestaltTool S I T)) (name : String) (tool : BaseGestaltTool S I T)
      → Q name tool
      → Everywhere d
      → Everywhere (Dict.put d name tool)
  unfolding Dict.put
  put-Everywhere [] name tool q h = (q, tt)
  put-Everywhere ((k, v) ∷ d) name tool q (p, h) =
      pick (str_eq k name) refl (put-Everywhere d name tool q h)
    where
      pick :
          (b : Bool)
          → str_eq k name ≡ b
          → Everywhere (Dict.put d name tool)
          → Everywhere (if b then (k, tool) ∷ d else (k, v) ∷ Dict.put d name tool)
      pick true same rest =
          (subst (λ (n : String). Q n tool) (sym ((str_eq_iff k name).0 same)) q, h)
      pick false other rest = (p, rest)

  pub bulk_register-Everywhere :
      (tools : List (BaseGestaltTool S I T)) (r : ToolRegistry S I T)
      → All (λ (tool : BaseGestaltTool S I T). Q (tool_name tool) tool) tools
      → Everywhere r.tools
      → Everywhere (bulk_register tools r).tools
  unfolding bulk_register register
  bulk_register-Everywhere [] r h k = k
  bulk_register-Everywhere (tool ∷ tools) r (q, h) k =
      bulk_register-Everywhere tools (register tool r) h
        (put-Everywhere r.tools (tool_name tool) tool q k)
