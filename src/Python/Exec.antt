-- ===== src/Python/Exec.antt =====
-- Exceptions as values, and methods that mutate objects and may raise. What was written before a
-- raise stays written, so the state comes back beside the error too.
use gestalt_agentic_software.Prelude.{String, List, [], ◌∷◌, Bool, true, false, ◌+++◌}

-- The exception classes that the program raises or provokes.
pub data ExcKind : Type 0 where
  value_error validation_error key_error type_error permission_error : ExcKind
  event_approval_error tool_permission_error runtime_error integrity_error : ExcKind
  overflow_error settings_error index_error graph_recursion_error : ExcKind
  attribute_error timeout_error os_error http_error : ExcKind

-- `message` is `str(exc)`. A library's own wording (pydantic's, the database's) is a short label.
pub record Exc : Type 0 where
  pub kind : ExcKind
  pub message : String

pub data Result {ℓ} (A : Type ℓ) : Type ℓ where
  ok : A → Result A
  raised : Exc → Result A

abbrev pub raise_with {ℓ} : {A : Type ℓ} → ExcKind → String → Result A
raise_with kind message = raised (record { kind = kind; message = message })

-- The message of `KeyError(name)`, which is `repr(name)`; for a name without quotes, backslashes and
-- characters that are not printed.
abbrev pub quoted : String → String
quoted name = "'" +++ name +++ "'"

abbrev pub Exec {ℓ} : Type ℓ → Type ℓ → Type ℓ
Exec S A = S → Result A × S

module _ {ℓ} {S A : Type ℓ} where
  abbrev pub pure : A → Exec S A
  pure a s = (ok a, s)

  abbrev pub raise : ExcKind → String → Exec S A
  raise kind message s = (raise_with kind message, s)

  abbrev pub lift : Result A → Exec S A
  lift r s = (r, s)

  abbrev pub gets : (S → A) → Exec S A
  gets f s = (ok (f s), s)

abbrev pub modify : {S : Type 0} → (S → S) → Exec S (Unit {0})
modify f s = (ok tt, f s)

module _ {ℓ} {S A B : Type ℓ} where
  abbrev pub continue : Result A → (A → Exec S B) → Exec S B
  continue (ok a) f s = f a s
  continue (raised e) f s = (raised e, s)

  infixl 10 ◌>>=◌ ◌>>◌
  abbrev pub ◌>>=◌ : Exec S A → (A → Exec S B) → Exec S B
  ◌>>=◌ m f s = let (r, s') = m s in continue r f s'

  abbrev pub ◌>>◌ : Exec S A → Exec S B → Exec S B
  m >> n = m >>= λ _. n

-- `for x in xs: await body(x)`
abbrev pub for_each : {S A : Type 0} → List A → (A → Exec S (Unit {0})) → Exec S (Unit {0})
for_each [] body s = (ok tt, s)
for_each (x ∷ xs) body s = let rest = for_each xs body in (body x >>= λ _. rest) s

-- `try: body  except Exception as exc: handler(exc)`
abbrev pub handle : {S A : Type 0} → Result A → (Exc → Exec S A) → Exec S A
handle (ok a) handler s = (ok a, s)
handle (raised e) handler s = handler e s

abbrev pub try_except : {S A : Type 0} → Exec S A → (Exc → Exec S A) → Exec S A
try_except body handler s = let (r, s') = body s in handle r handler s'

-- `body` acts on a part of the object.
abbrev pub on_part : {S T A : Type 0} → (S → T) → (T → S → S) → Exec T A → Exec S A
on_part get_part set_part body s = let (r, t) = body (get_part s) in (r, set_part t s)

-- A model's constructor: the constraints on its fields, or a `ValidationError`.
abbrev pub validated : {A : Type 0} → Bool → A → Result A
validated true a = ok a
validated false a = raise_with validation_error "validation error"
