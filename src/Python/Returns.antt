-- ===== src/Python/Returns.antt =====
-- Runs that return: an action, from a given object, ends without an exception.
use gestalt_agentic_software.Prelude.{◌≡◌, ap, ◌∙◌, ◌⊎◌, inl, inr, refl}
use gestalt_agentic_software.Python.Exec.{Exec, Result, ◌>>=◌, ok, continue, lift, Exc, raised}

pub record Returns {S A : Type 0} (m : Exec S A) (s : S) (P : A → S → Type 0) : Type 0 where
  pub value : A
  pub final : S
  pub eq : m s ≡ (ok value, final)
  pub holds : P value final

module _ {S A B : Type 0} where
  pub bind-Returns :
      (Q : A → S → Type 0) (P : B → S → Type 0) (m : Exec S A) (f : A → Exec S B) (s : S)
      → Returns m s Q
      → ((a : A) (t : S) → Q a t → Returns (f a) t P)
      → Returns (m >>= f) s P
  bind-Returns Q P m f s r g =
      let k = g r.value r.final r.holds in
      record {
        value = k.value;
        final = k.final;
        eq = ap (λ (x : Result A × S). continue x.0 f x.1) r.eq ∙ k.eq;
        holds = k.holds;
      }

module _ {S A : Type 0} where
  pub lift-Returns :
      (P : A → S → Type 0) (r : Result A) (a : A) (s : S) → r ≡ ok a → P a s → Returns (lift r) s P
  lift-Returns P r a s e p = record {
    value = a;
    final = s;
    eq = ap (λ (x : Result A). (x, s)) e;
    holds = p;
  }

  pub weaken-Returns :
      (P Q : A → S → Type 0) (m : Exec S A) (s : S)
      → ((a : A) (t : S) → P a t → Q a t)
      → Returns m s P
      → Returns m s Q
  weaken-Returns P Q m s h r = record {
    value = r.value;
    final = r.final;
    eq = r.eq;
    holds = h r.value r.final r.holds;
  }

-- To split on a result and keep the equation.
pub Result-cases :
    {A : Type 0} (r : Result A) → ((a : A) × (r ≡ ok a)) ⊎ ((exc : Exc) × (r ≡ raised exc))
Result-cases (ok a) = inl (a, refl)
Result-cases (raised exc) = inr (exc, refl)
