-- ===== src/Agents/Verdict.antt =====
-- What the security audit of gestalt/agents/security_audit.py reports, from its rules to its artifacts.
use gestalt_agentic_software.Agents.Report.{IsVerdict, artifacts-Returns}
use gestalt_agentic_software.Tools.Outputs.{ToolInput, ToolOutput}
use gestalt_agentic_software.Tools.Registry.{ToolRegistry}
use gestalt_agentic_software.Protocol.Validation.{min_length, in_score_range}
use gestalt_agentic_software.Prelude.Int.{ℤ, pos, leb_ℤ}
use gestalt_agentic_software.Python.Returns.{Returns, bind-Returns, weaken-Returns}
use gestalt_agentic_software.Agents.AuditRules.{audit_findings, last_error, is_critical}
use gestalt_agentic_software.Python.Exec.{ok, Result, validated, raised, Exec}
use gestalt_agentic_software.Agents.Findings.{
  Finds, failure_category, error_category, categories, history_category, failure_finding-Returns,
  error_finding-Returns, history_finding-Returns,
}
use gestalt_agentic_software.Python.Values.{Float}
use gestalt_agentic_software.Protocol.Models.{AuditFinding, Metadata}
use gestalt_agentic_software.Protocol.Reports.{GestaltGraphState}
use gestalt_agentic_software.Protocol.Enums.{AuditCategory}
use gestalt_agentic_software.Runtime.{Host, Session, World}
use gestalt_agentic_software.Agents.SecurityAudit.{
  audit_reasoning, SecurityAuditReasoning, conclude,
}
use gestalt_agentic_software.Tools.Fields.{
  Coercions, model, long_text, required_int, and_then, text_field, int_value,
}
use gestalt_agentic_software.Prelude.{
  List, ◌≡◌, ◌≤◌, str_len, ◌++◌, ◌∙◌, ap, All-append, Bool, String, arith, ℕ, true, false, refl,
  Option-cases, none, inl, inr, leb→le, ◌&&◌, ◌∷◌, [],
}
use gestalt_agentic_software.Config.{GestaltSettings}
use mathlib.Core.Path.{subst}
use mathlib.Core.List.{map-append}
use gestalt_agentic_software.Python.Dict
use gestalt_agentic_software.Python.Dict.{string_key}

-- What the rules call for in a state, with the reading of the error ratio.
abbrev pub called_for : GestaltSettings → Host → GestaltGraphState → Float → List AuditCategory
called_for settings host state ratio =
    failure_category (last_error state.metadata)
    ++ error_category (is_critical settings host ratio)
    ++ history_category state.audit_reports

Finds-append :
    (ks ls : List AuditCategory) (xs ys : List AuditFinding)
    → Finds ks xs
    → Finds ls ys
    → Finds (ks ++ ls) (xs ++ ys)
Finds-append ks ls xs ys p q = record {
  found = map-append _ xs ys ∙ ap (λ cs. cs ++ categories ys) p.found ∙ ap (λ cs. ks ++ cs) q.found;
  evident = All-append _ xs ys p.evident q.evident;
}

-- An answer of the model that its response model accepts.
abbrev pub IsAccepted : Coercions → SecurityAuditReasoning → Type 0
IsAccepted c r = (payload : Metadata) × (audit_reasoning c payload ≡ ok r)

and_then-ok :
    {A B : Type 0} (r : Result A) (f : A → Result B) (b : B)
    → and_then r f ≡ ok b
    → (a : A) × (r ≡ ok a) × (f a ≡ ok b)
and_then-ok (ok a) f b h = (a, refl, h)
and_then-ok (raised e) f b h = absurd (ground (arith, h))

validated-ok : {A : Type 0} (b : Bool) (a c : A) → validated b a ≡ ok c → (b ≡ true) × (a ≡ c)
validated-ok true a c h = (refl, cc)
validated-ok false a c h = absurd (ground (arith, h))

model-ok :
    {A : Type 0} (names : List String) (payload : Metadata) (r : Result A) (a : A)
    → model names payload r ≡ ok a
    → r ≡ ok a
unfolding model
model-ok names payload r a h = ground (arith, h)

long_text-ok :
    (payload : Metadata) (name s : String) (least : ℕ)
    → long_text payload name least ≡ ok s
    → min_length least s ≡ true
unfolding long_text
long_text-ok payload name s least h =
    let (t, found, checked) = and_then-ok (text_field payload name none) _ s h in
    let (long, same) = validated-ok (min_length least t) t s checked in
    subst (λ x. min_length least x ≡ true) same long

required_int-ok :
    (c : Coercions) (payload : Metadata) (name : String) (z : ℤ)
    → required_int c payload name (pos 0) (pos 100) ≡ ok z
    → in_score_range z ≡ true
unfolding required_int
required_int-ok c payload name z h = elim (Option-cases (Dict.get payload name)) [
  | inl absent ↦ absurd (ground (arith, h, absent))
  | inr (v, e) ↦
      let (y, read, checked) =
        and_then-ok (int_value c v) (λ y. validated (leb_ℤ (pos 0) y && leb_ℤ y (pos 100)) y) z
          (rw (required_int, e) at h) in
      let (range, same) = validated-ok (in_score_range y) y z checked in
      subst (λ x. in_score_range x ≡ true) same range
]

abbrev answer : String → ℤ → Result SecurityAuditReasoning
answer text score = ok (record { summary = text; overall_risk_score = score })

abbrev scored : Coercions → Metadata → String → Result SecurityAuditReasoning
scored c payload text =
    and_then (required_int c payload "overall_risk_score" (pos 0) (pos 100)) (answer text)

-- An accepted answer has a long summary and a score in the range.
abbrev IsFit : SecurityAuditReasoning → Type 0
IsFit r = (24 ≤ str_len r.summary) × (in_score_range r.overall_risk_score ≡ true)

accepted-IsFit : (c : Coercions) (r : SecurityAuditReasoning) → IsAccepted c r → IsFit r
unfolding audit_reasoning
accepted-IsFit c r (payload, e) =
    let fields =
      model-ok ("summary" ∷ "overall_risk_score" ∷ []) payload
        (and_then (long_text payload "summary" 24) (scored c payload)) r e in
    let (text, read_text, rest) =
      and_then-ok (long_text payload "summary" 24) (scored c payload) r fields in
    let (score, read_score, made) =
      and_then-ok (required_int c payload "overall_risk_score" (pos 0) (pos 100)) (answer text) r
        rest in
    let same : record { summary = text; overall_risk_score = score } ≡ r = cc in
    subst IsFit same (
      leb→le 24 (str_len text) (long_text-ok payload "summary" text 24 read_text),
      required_int-ok c payload "overall_risk_score" score read_score,
    )

module _ (settings : GestaltSettings) (host : Host) (state : GestaltGraphState)
    (ratio : Float) where
  audit_findings-Returns :
      (s : Session)
      → Returns
          (audit_findings settings host state ratio)
          s
          (λ fs t. Finds (called_for settings host state ratio) fs)
  unfolding audit_findings
  audit_findings-Returns s =
      bind-Returns _ _ _ _ s (failure_finding-Returns (last_error state.metadata) s) λ xs t p.
        bind-Returns _ _ _ _ t (error_finding-Returns (is_critical settings host ratio) ratio t)
          λ ys u q. bind-Returns _ _ _ _ u (history_finding-Returns state.audit_reports u) λ zs v r.
            record {
              value = xs ++ ys ++ zs;
              final = v;
              eq = refl;
              holds = Finds-append _ _ (xs ++ ys) zs (Finds-append _ _ xs ys p q) r;
            }

  module _ (coercions : Coercions) (tools : ToolRegistry World ToolInput ToolOutput) (related : ℕ)
      (ask : List AuditFinding → Exec Session SecurityAuditReasoning) where
    pub conclude-IsVerdict :
        ((findings : List AuditFinding) (u : Session)
          → Returns (ask findings) u (λ r v. IsAccepted coercions r))
        → (s : Session)
        → Returns (conclude settings host coercions tools state ratio related ask) s (λ a t.
          (risk : ℤ) × (in_score_range risk ≡ true)
          × IsVerdict (called_for settings host state ratio) risk a)
    unfolding conclude
    conclude-IsVerdict answers s =
        bind-Returns _ _ _ _ s (audit_findings-Returns s) λ findings t finds.
          bind-Returns _ _ (ask findings) _ t (answers findings t) λ r u accepted.
            let fit = accepted-IsFit coercions r accepted in
            weaken-Returns _ _ _ u (λ a v verdict. (r.overall_risk_score, fit.1, verdict))
              (artifacts-Returns settings host state coercions tools related r fit.0 fit.1 _
                findings u finds)
