-- ===== src/Tools/Access.antt =====
-- Who may run which tool.
use mathlib.Core.Path.{subst}
use gestalt_agentic_software.Tools.Base.{BaseGestaltTool, tool_name}
use gestalt_agentic_software.Prelude.{
  List, String, All, Option, ◌≡◌, ◌∷◌, Bool, if◌then◌else◌, ◌∙◌, ap, str_eq, [], some, str_eq_iff,
  refl, mem_str, true, map, select, false,
}
use gestalt_agentic_software.Tools.Registry.{
  ToolRegistry, bulk_register, register, list_allowed_tools,
}
use gestalt_agentic_software.Python.Dict
use gestalt_agentic_software.Python.Dict.{Dict, string_key}

module _ {S I T : Type 0} where
  -- Every tool stands under its own name.
  abbrev pub IsKeyed : ToolRegistry S I T → Type 0
  IsKeyed r = All (λ (entry : String × BaseGestaltTool S I T). entry.0 ≡ tool_name entry.1) r.tools

  put-All :
      (d : Dict String (BaseGestaltTool S I T)) (tool : BaseGestaltTool S I T)
      → All (λ (entry : String × BaseGestaltTool S I T). entry.0 ≡ tool_name entry.1) d
      → All
          (λ (entry : String × BaseGestaltTool S I T). entry.0 ≡ tool_name entry.1)
          (Dict.put d (tool_name tool) tool)
  unfolding Dict.put
  put-All [] tool h = (refl, tt)
  put-All ((k, v) ∷ d) tool (e, h) = pick (str_eq k (tool_name tool)) refl (put-All d tool h)
    where
      pick :
          (b : Bool)
          → str_eq k (tool_name tool) ≡ b
          → All
              (λ (entry : String × BaseGestaltTool S I T). entry.0 ≡ tool_name entry.1)
              (Dict.put d (tool_name tool) tool)
          → All
              (λ (entry : String × BaseGestaltTool S I T). entry.0 ≡ tool_name entry.1)
              (if b then (k, tool) ∷ d else (k, v) ∷ Dict.put d (tool_name tool) tool)
      pick true same rest = ((str_eq_iff k (tool_name tool)).0 same, h)
      pick false other rest = (e, rest)

  -- The last tool of a list under a name, or else the one that was there.
  abbrev pub latest :
      List (BaseGestaltTool S I T)
      → String
      → Option (BaseGestaltTool S I T)
      → Option (BaseGestaltTool S I T)
  latest [] name before = before
  latest (tool ∷ tools) name before =
      latest tools name (if str_eq (tool_name tool) name then some tool else before)

  -- Of tools of one name the last one registered stays, the other names keep what they had.
  pub get-bulk_register :
      (tools : List (BaseGestaltTool S I T)) (r : ToolRegistry S I T) (name : String)
      → Dict.get (bulk_register tools r).tools name ≡ latest tools name (Dict.get r.tools name)
  unfolding bulk_register register
  get-bulk_register [] r name = refl
  get-bulk_register (tool ∷ tools) r name =
      get-bulk_register tools (register tool r) name
      ∙ ap (λ (o : Option (BaseGestaltTool S I T)). latest tools name o)
          (Dict.get-put r.tools (tool_name tool) name tool)

  bulk-All :
      (tools : List (BaseGestaltTool S I T)) (r : ToolRegistry S I T)
      → IsKeyed r
      → IsKeyed (bulk_register tools r)
  unfolding bulk_register register
  bulk-All [] r h = h
  bulk-All (tool ∷ tools) r h = bulk-All tools (register tool r) (put-All r.tools tool h)

  -- A registry that was filled from an empty one lists, for an allowlist, only tools whose names are
  -- in it.
  pub list_allowed_tools-All :
      (tools : List (BaseGestaltTool S I T)) (allowlist : List String)
      → All
          (λ (tool : BaseGestaltTool S I T). mem_str (tool_name tool) allowlist ≡ true)
          (list_allowed_tools (bulk_register tools (record { tools = [] })) allowlist)
  unfolding list_allowed_tools
  list_allowed_tools-All tools allowlist =
      keyed-All (bulk_register tools (record { tools = [] })).tools
        (bulk-All tools (record { tools = [] }) tt)
    where
      keyed-All :
          (d : Dict String (BaseGestaltTool S I T))
          → All (λ (entry : String × BaseGestaltTool S I T). entry.0 ≡ tool_name entry.1) d
          → All
              (λ (tool : BaseGestaltTool S I T). mem_str (tool_name tool) allowlist ≡ true)
              (map
                (λ (entry : String × BaseGestaltTool S I T). entry.1)
                (select (λ (entry : String × BaseGestaltTool S I T). mem_str entry.0 allowlist) d))
      keyed-All [] h = tt
      keyed-All ((k, tool) ∷ d) (e, h) = keep (mem_str k allowlist) refl (keyed-All d h)
        where
          keep :
              (b : Bool)
              → mem_str k allowlist ≡ b
              → All
                  (λ (t : BaseGestaltTool S I T). mem_str (tool_name t) allowlist ≡ true)
                  (map
                    (λ (entry : String × BaseGestaltTool S I T). entry.1)
                    (select
                      (λ (entry : String × BaseGestaltTool S I T). mem_str entry.0 allowlist)
                      d))
              → All
                  (λ (t : BaseGestaltTool S I T). mem_str (tool_name t) allowlist ≡ true)
                  (map
                    (λ (entry : String × BaseGestaltTool S I T). entry.1)
                    (let rest =
                        select
                          (λ (entry : String × BaseGestaltTool S I T). mem_str entry.0 allowlist)
                          d in
                      elim b [ true ↦ (k, tool) ∷ rest | false ↦ rest ]))
          keep true m rest = (subst (λ (n : String). mem_str n allowlist ≡ true) e m, rest)
          keep false m rest = rest
