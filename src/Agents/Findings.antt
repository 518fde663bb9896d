-- ===== src/Agents/Findings.antt =====
-- What the security audit of gestalt/agents/security_audit.py finds.
use gestalt_agentic_software.Python.Returns.{Returns}
use gestalt_agentic_software.Runtime.{Session, Host, World}
use gestalt_agentic_software.Python.Values.{Float, str}
use gestalt_agentic_software.Protocol.Constraints.{check_evidence, check_finding, check_remediation}
use gestalt_agentic_software.Protocol.Validation.{min_length}
use gestalt_agentic_software.Protocol.Models.{AuditFinding, AuditEvidence, Uuid}
use gestalt_agentic_software.Protocol.Reports.{GestaltAuditReport}
use gestalt_agentic_software.Protocol.Enums.{
  AuditCategory, AuditSeverity, GestaltCommandType, Priority,
}
use gestalt_agentic_software.Agents.AuditRules.{
  error_finding, failure_finding, history_finding, make_finding, make_remediation,
}
use gestalt_agentic_software.Prelude.{
  Bool, List, Option, String, All, [], map, ◌+++◌, ◌∷◌, ◌≡◌, false, some, true, le→leb, none, arith,
  refl, ◌+◌,
}
use text.Mathlib.TextLemmas.{length-append as count-append}
use gestalt_agentic_software.Runtime
use gestalt_agentic_software.Python.Dict.{string_key}

-- The categories that the three rules call for.
abbrev pub failure_category : Option String → List AuditCategory
failure_category none = []
failure_category (some error) = AuditCategory.tooling ∷ []

abbrev pub error_category : Bool → List AuditCategory
error_category false = []
error_category true = AuditCategory.observability ∷ []

abbrev pub history_category : List GestaltAuditReport → List AuditCategory
history_category [] = []
history_category (r ∷ rs) = AuditCategory.checkpoint ∷ []

abbrev pub categories : List AuditFinding → List AuditCategory
categories findings = map (λ (f : AuditFinding). f.category) findings

-- Each finding has its evidence.
abbrev pub AreEvident : List AuditFinding → Type 0
AreEvident findings =
    All (λ (f : AuditFinding). (e : AuditEvidence) × (f.evidence ≡ e ∷ [])) findings

pub record Finds (called : List AuditCategory) (findings : List AuditFinding) : Type 0 where
  pub found : categories findings ≡ called
  pub evident : AreEvident findings

detail_long :
    (error : String)
    → min_length 16 (
        "The graph state captured a last_error marker and the failure should be analyzed: "
        +++ error)
      ≡ true
detail_long error = le→leb 16 _ (
    omega (
      arith,
      count-append
          "The graph state captured a last_error marker and the failure should be analyzed: " error,
    ))

abbrev failure_of : String → Uuid → AuditFinding
failure_of error n = record {
  finding_id = n + 1;
  category = AuditCategory.tooling;
  severity = AuditSeverity.high;
  summary = "A recent agent invocation failed.";
  detail =
      "The graph state captured a last_error marker and the failure should be analyzed: " +++ error;
  evidence =
      record {
        source = "graph_state";
        description = "state.metadata.last_error";
        reference = none;
        metadata = ("last_error", str error) ∷ [];
      }
      ∷ [];
  remediation =
      record {
        instruction_id = n;
        command_type = GestaltCommandType.analyze;
        title = "Analyze latest runtime failure";
        rationale = "A failed agent invocation can hide unsafe or inconsistent state.";
        priority = Priority.high;
        payload = ("last_error", str error) ∷ [];
      }
      ∷ [];
  hypothesis_id = none;
}

pub failure_finding-Returns :
    (error : Option String) (s : Session)
    → Returns (failure_finding error) s (λ fs t. Finds (failure_category error) fs)
unfolding failure_finding make_remediation make_finding check_evidence check_finding
    check_remediation Runtime.new_uuid
failure_finding-Returns none s = record {
  value = [];
  final = s;
  eq = refl;
  holds = record { found = refl; evident = tt };
}
failure_finding-Returns (some error) s = record {
  value = failure_of error s.world.uuids ∷ [];
  final = record s { world = record s.world { uuids = s.world.uuids + 1 + 1 } };
  eq = rw (detail_long error) refl;
  holds = record { found = refl; evident = ((_, refl), tt) };
}

pub error_finding-Returns :
    (critical : Bool) (value : Float) (s : Session)
    → Returns (error_finding critical value) s (λ fs t. Finds (error_category critical) fs)
unfolding error_finding make_finding check_evidence check_finding Runtime.new_uuid
error_finding-Returns false value s = record {
  value = [];
  final = s;
  eq = refl;
  holds = record { found = refl; evident = tt };
}
error_finding-Returns true value s = record {
  value = _;
  final = _;
  eq = refl;
  holds = record { found = refl; evident = ((_, refl), tt) };
}

pub history_finding-Returns :
    (reports : List GestaltAuditReport) (s : Session)
    → Returns (history_finding reports) s (λ fs t. Finds (history_category reports) fs)
unfolding history_finding make_finding check_evidence check_finding Runtime.new_uuid
history_finding-Returns [] s = record {
  value = [];
  final = s;
  eq = refl;
  holds = record { found = refl; evident = tt };
}
history_finding-Returns (r ∷ rs) s = record {
  value = _;
  final = _;
  eq = refl;
  holds = record { found = refl; evident = ((_, refl), tt) };
}
