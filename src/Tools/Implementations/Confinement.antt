-- ===== src/Tools/Implementations/Confinement.antt =====
-- What the tools let out: requests on the allowlist, and commands without a blocked term in the
-- workspace.
use gestalt_agentic_software.Tools.Implementations.Catalog.{register_tools, all_tools}
use gestalt_agentic_software.Tools.Effects.{IsTame, AreTame, bulk_register-AreTame}
use gestalt_agentic_software.Tools.Implementations.Kubernetes.{
  kubernetes_patch_tool, kubernetes_read_tool,
}
use gestalt_agentic_software.Tools.Implementations.Metrics.{
  prometheus_query_tool, redis_stream_inspect_tool,
}
use gestalt_agentic_software.Tools.Implementations.Memory.{
  blackboard_query_tool, blackboard_write_tool,
}
use mathlib.Core.Path.{subst}
use gestalt_agentic_software.Tools.Base.{ToolContext}
use gestalt_agentic_software.Tools.Outputs.{ToolInput}
use gestalt_agentic_software.BaseAgent.Carried.{Carries, Carries-IsCarried}
use gestalt_agentic_software.Tools.Implementations.Http.{
  on_allowlist, run_http, no_allowlist, send, http_request_tool,
}
use gestalt_agentic_software.Config.{GestaltSettings}
use gestalt_agentic_software.Tools.Outside.{Outside, call_outside}
use gestalt_agentic_software.Runtime.{OutsideCall, http_call, process, Host, World}
use gestalt_agentic_software.Tools.Implementations.Sandbox.{
  blocked_in, blocked_terms, run_sandbox, start_process, sandbox_command_tool,
}
use gestalt_agentic_software.Prelude.{
  List, String, any, ℕ, codes, starts_with, ◌≡◌, [], none, true, ◌++◌, All, ◌∷◌, ◌⊎◌, Bool-cases,
  contains, ◌==◌, arith, false, inl, lower, ==_iff, inr, refl, sym, ◌||◌, All-append, Option-cases,
}
use mathlib.Core.List.{Memᴰ}

abbrev pub StartsWith : String → String → Type 0
StartsWith s p = (rest : List ℕ) × (codes s ≡ codes p ++ rest)

-- A call is confined: the URL begins with an entry of the allowlist, unless that is empty; the command
-- contains no blocked term, in lower case, and its directory's text begins with the root's.
abbrev pub IsConfined : List String → String → OutsideCall → Type 0
IsConfined allowlist root (http_call method url) =
    (allowlist ≡ []) ⊎ ((p : String) × Memᴰ p allowlist × StartsWith url p)
IsConfined allowlist root (process command directory) =
    All (λ term. contains (lower command) (codes term) ≡ false) blocked_terms
    × StartsWith directory root

starts_with-rest : (s p : List ℕ) → starts_with s p ≡ true → (rest : List ℕ) × (s ≡ p ++ rest)
starts_with-rest s [] h = (s, refl)
starts_with-rest [] (p ∷ ps) h = cc
starts_with-rest (c ∷ cs) (p ∷ ps) h =
    let tests : ((c == p) ≡ true) × (starts_with cs ps ≡ true) = ground arith in
    let (rest, e) = starts_with-rest cs ps tests.1 in (rest, rw ((==_iff c p).0 tests.0, e) refl)

on_allowlist-entry :
    (allowlist : List String) (url : String)
    → any (λ p. starts_with (codes url) (codes p)) allowlist ≡ true
    → (p : String) × Memᴰ p allowlist × StartsWith url p
on_allowlist-entry [] url h = cc
on_allowlist-entry (p ∷ ps) url h = elim (Bool-cases (starts_with (codes url) (codes p))) [
  | inl here ↦ (p, Memᴰ.head refl, starts_with-rest (codes url) (codes p) here)
  | inr there ↦ let (q, m, s) = on_allowlist-entry ps url (ground arith) in (q, Memᴰ.tail m, s)
]

blocked_in-none :
    (lowered : List ℕ) (terms : List String)
    → blocked_in lowered terms ≡ none
    → All (λ term. contains lowered (codes term) ≡ false) terms
unfolding blocked_in
blocked_in-none lowered [] h = tt
blocked_in-none lowered (term ∷ terms) h = elim (Bool-cases (contains lowered (codes term))) [
  | inl found ↦ absurd (ground arith)
  | inr other ↦ (other, blocked_in-none lowered terms (ground arith))
]

module _ (host : Host) (outside : Outside) (settings : GestaltSettings) where
  -- The text of the sandbox's root.
  abbrev pub sandbox_root : String
  sandbox_root = outside.resolve "" "/workspace"

  -- What the calls are confined to.
  abbrev pub Confined : OutsideCall → Type 0
  Confined = IsConfined settings.security.outbound_http_allowlist sandbox_root

  quiet-Carries : (w v : World) → v.outside ≡ w.outside → Carries Confined w v
  quiet-Carries w v e = (Carries-IsCarried Confined).unsent w v e

  -- One more call, which is confined.
  sent-Carries :
      (call : OutsideCall) (w v : World)
      → Confined call
      → v.outside ≡ w.outside ++ call ∷ []
      → Carries Confined w v
  sent-Carries call w v c e = record {
    keeps = λ h.
        subst (λ (l : List OutsideCall). All Confined l) (sym e)
          (All-append Confined w.outside (call ∷ []) h (c, tt));
  }

  allowed_url :
      (allowlist : List String) (url : String)
      → (no_allowlist allowlist || on_allowlist allowlist url) ≡ true
      → (allowlist ≡ []) ⊎ ((p : String) × Memᴰ p allowlist × StartsWith url p)
  unfolding on_allowlist
  allowed_url [] url h = inl refl
  allowed_url (p ∷ ps) url h = inr (on_allowlist-entry (p ∷ ps) url h)

  http-Carries :
      (input : ToolInput) (c : ToolContext) (w : World)
      → Carries Confined w (run_http outside settings.security.outbound_http_allowlist input c w).1
  unfolding run_http send call_outside
  http-Carries (ToolInput.http_request input) c w =
      elim (Bool-cases (
        no_allowlist settings.security.outbound_http_allowlist
        || on_allowlist settings.security.outbound_http_allowlist input.url)) [
          | inl on ↦
              sent-Carries (http_call (outside.upper input.method) input.url) w _
                (allowed_url settings.security.outbound_http_allowlist input.url on) (ground arith)
          | inr off ↦ quiet-Carries w _ (ground arith)
        ]
  http-Carries _ c w = quiet-Carries w _ (ground arith)

  sandbox-Carries :
      (input : ToolInput) (c : ToolContext) (w : World)
      → Carries Confined w (run_sandbox outside sandbox_root input c w).1
  unfolding run_sandbox start_process call_outside
  sandbox-Carries (ToolInput.sandbox_command input) c w =
      elim (Option-cases (blocked_in (lower input.command) blocked_terms)) [
        | inr (term, blocked) ↦ quiet-Carries w _ (ground (arith, blocked))
        | inl clear ↦
            let directory = outside.resolve sandbox_root input.working_directory in
            elim (Bool-cases (starts_with (codes directory) (codes sandbox_root))) [
              | inl inside ↦
                  sent-Carries (process input.command directory) w _
                    (
                      blocked_in-none (lower input.command) blocked_terms clear,
                      starts_with-rest (codes directory) (codes sandbox_root) inside,
                    )
                    (ground (arith, clear))
              | inr escaped ↦ quiet-Carries w _ (ground (arith, clear))
            ]
      ]
  sandbox-Carries _ c w = quiet-Carries w _ (ground arith)

  query-Carries : IsTame (Carries Confined) (blackboard_query_tool host outside.coercions)
  unfolding blackboard_query_tool
  query-Carries = record { goes = λ input c w. quiet-Carries w _ (ground arith) }

  write-Carries : IsTame (Carries Confined) (blackboard_write_tool host outside.coercions)
  unfolding blackboard_write_tool
  write-Carries = record { goes = λ input c w. quiet-Carries w _ (ground arith) }

  prometheus-Carries : IsTame (Carries Confined) (prometheus_query_tool host)
  unfolding prometheus_query_tool
  prometheus-Carries = record { goes = λ input c w. quiet-Carries w _ (ground arith) }

  redis-Carries : IsTame (Carries Confined) (redis_stream_inspect_tool outside.coercions)
  unfolding redis_stream_inspect_tool
  redis-Carries = record { goes = λ input c w. quiet-Carries w _ (ground arith) }

  read-Carries : IsTame (Carries Confined) kubernetes_read_tool
  unfolding kubernetes_read_tool
  read-Carries = record { goes = λ input c w. quiet-Carries w _ (ground arith) }

  patch-Carries : IsTame (Carries Confined) kubernetes_patch_tool
  unfolding kubernetes_patch_tool
  patch-Carries = record { goes = λ input c w. quiet-Carries w _ (ground arith) }

  http_tool-Carries : IsTame (Carries Confined) (http_request_tool outside settings.security)
  http_tool-Carries = unfold http_request_tool in record { goes = http-Carries }

  sandbox_tool-Carries : IsTame (Carries Confined) (sandbox_command_tool outside "/workspace")
  sandbox_tool-Carries = unfold sandbox_command_tool in record { goes = sandbox-Carries }

  -- Every tool of the program keeps its calls confined.
  pub register_tools-Carries :
      AreTame (Carries Confined) (register_tools host outside settings (record { tools = [] }))
  unfolding register_tools all_tools
  register_tools-Carries =
      bulk_register-AreTame (Carries Confined) (all_tools host outside settings)
        (record { tools = [] })
        (
          query-Carries,
          (
            write-Carries,
            (
              prometheus-Carries,
              (
                http_tool-Carries,
                (sandbox_tool-Carries, (redis-Carries, (read-Carries, (patch-Carries, tt)))),
              ),
            ),
          ),
        )
        tt
