-- ===== src/Retry.antt =====
-- gestalt/utils/retry.py. Tenacity is the loop `retrying`: it calls the operation again after an
-- exception of the given classes, until no attempt is left, and then lets the last exception through.
-- The waits between the attempts are not modelled.
use gestalt_agentic_software.Prelude.{
  Bool, ℕ, arith, suc, ◌+◌, ◌-◌, zero, ◌≤◌, ◌≡◌, Bool-cases, if◌then◌else◌, true, inl, inr,
}
use gestalt_agentic_software.Python.Exec.{Exc, Exec, Result, ok, raised}

module _ {S A : Type 0} (retry_on : Exc → Bool) (operation : Exec S A) where
  -- What follows an attempt, of which `again` are left.
  abbrev attempted : Exec S A → Result A → Exec S A
  attempted again (ok a) s = (ok a, s)
  attempted again (raised e) s = if retry_on e then again s else (raised e, s)

  -- At least one attempt, and as many more as are left.
  unfoldable pub retrying : ℕ → Exec S A
  retrying zero s = operation s
  retrying (suc left) s =
      let again = retrying left in let (r, t) = operation s in attempted again r t

  -- with_retry(operation, attempts=…)
  unfoldable pub with_retry : ℕ → Exec S A
  unfolding retrying
  with_retry attempts = retrying (attempts - 1)

-- The operation with a count of its calls.
abbrev pub counted : {S A : Type 0} → Exec S A → Exec (S × ℕ) A
counted operation (s, calls) = let (r, t) = operation s in (r, (t, calls + 1))

-- The count of the calls at the end of a run that began at `calls`, with `left` attempts after the first.
pub record IsBounded {S A : Type 0} (retry_on : Exc → Bool) (calls left : ℕ)
    (end : Result A × (S × ℕ)) : Type 0 where
  pub least : calls + 1 ≤ end.1.1
  pub most : end.1.1 ≤ calls + 1 + left
  -- It gives up early only on an exception of another class.
  pub exhausted : (e : Exc) → end.0 ≡ raised e → retry_on e ≡ true → end.1.1 ≡ calls + 1 + left

module _ {S A : Type 0} (retry_on : Exc → Bool) (operation : Exec S A) where
  retrying-IsBounded :
      (left : ℕ) (s : S) (calls : ℕ)
      → IsBounded retry_on calls left (retrying retry_on (counted operation) left (s, calls))
  unfolding retrying
  retrying-IsBounded zero s calls = record {
    least = omega arith;
    most = omega arith;
    exhausted = λ e q h. omega arith;
  }
  retrying-IsBounded (suc left) s calls =
      after (operation s).0 (operation s).1 (retrying-IsBounded left (operation s).1 (calls + 1))
    where
      after :
          (r : Result A) (t : S)
          → IsBounded retry_on
              (calls + 1)
              left
              (retrying retry_on (counted operation) left (t, calls + 1))
          → IsBounded retry_on calls (suc left) (
              attempted retry_on
                (counted operation)
                (retrying retry_on (counted operation) left)
                r
                (t, calls + 1))
      after (ok a) t h = record { least = omega arith; most = omega arith; exhausted = λ e q k. cc }
      after (raised x) t h = elim (Bool-cases (retry_on x)) [
        | inl again ↦ rw again (record {
          least = omega (arith, h.least);
          most = omega (arith, h.most);
          exhausted = λ e q k. omega (arith, h.exhausted e q k);
        })
        | inr other ↦ rw other (record {
          least = omega arith;
          most = omega arith;
          exhausted = λ e q k. absurd (ground arith);
        })
      ]

  -- `with_retry` comes to an end whatever the operation does: it calls the operation at least once and,
  -- for a positive number of attempts, at most that often; and when it raises an exception of a class
  -- that it retries, it has made every attempt.
  pub with_retry-IsBounded :
      (attempts : ℕ) (s : S)
      → IsBounded retry_on 0
          (attempts - 1)
          (with_retry retry_on (counted operation) attempts (s, 0))
  unfolding with_retry
  with_retry-IsBounded attempts s = retrying-IsBounded (attempts - 1) s 0
