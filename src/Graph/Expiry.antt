-- ===== src/Graph/Expiry.antt =====
-- What `run_cycle` does with the approvals of its result.
use gestalt_agentic_software.Config.{GestaltSettings}
use gestalt_agentic_software.Python.Returns.{Result-cases}
use gestalt_agentic_software.Python.Exec.{
  Exc, raised, Result, ok, continue, Exec, ◌>>◌, pure, ◌>>=◌,
}
use gestalt_agentic_software.Prelude.{
  List, ℕ, ◌≤◌, ◌+◌, ◌≡◌, ◌∷◌, arith, inl, inr, [], ap, ◌<◌, ◌∙◌, String, All, sym, ◌⊎◌, refl,
}
use gestalt_agentic_software.Protocol.Reports.{EventApproval, GestaltGraphState, CycleRequest}
use gestalt_agentic_software.Graph.{revalidate, Specialists, run_cycle, build_graph_state, visit}
use gestalt_agentic_software.Protocol.Validation.{check_approval, ensure_future_expiry}
use gestalt_agentic_software.BaseAgent.Failure.{IsMonotone}
use gestalt_agentic_software.Runtime.{Host, World}
use gestalt_agentic_software.Runtime

-- An approval that passes its validator expires later.
accepted-later :
    (now : ℕ) (a b : EventApproval) → check_approval now a ≡ ok b → now < a.expires_at.instant
unfolding check_approval ensure_future_expiry
accepted-later now a b e = ground arith

abbrev pub checked : Host → GestaltGraphState → Exec World GestaltGraphState
checked host g = do revalidate host g.approvals; pure g

-- The approvals that expire after an instant.
abbrev pub Unexpired : ℕ → List EventApproval → Type 0
Unexpired now approvals = All (λ (a : EventApproval). now < a.expires_at.instant) approvals

Unexpired-before :
    (now later : ℕ) (approvals : List EventApproval)
    → now ≤ later
    → Unexpired later approvals
    → Unexpired now approvals
Unexpired-before now later [] le h = tt
Unexpired-before now later (a ∷ rest) le (h, hs) =
    (omega (arith, h, le), Unexpired-before now later rest le hs)

module _ (host : Host) (mono : IsMonotone host) where
  abbrev after_check : List EventApproval → World → Result EventApproval → Result (Unit {0})
  after_check xs w r = (continue r (λ _. revalidate host xs) (record w { ticks = w.ticks + 1 })).0

  revalidate-Unexpired :
      (approvals : List EventApproval) (w : World)
      → (revalidate host approvals w).0 ≡ ok tt
      → Unexpired (host.clock w.ticks) approvals
  unfolding revalidate Runtime.utc_now
  revalidate-Unexpired [] w h = tt
  revalidate-Unexpired (a ∷ rest) w h =
      elim (Result-cases (check_approval (host.clock w.ticks) a)) [
        | inl (b, fine) ↦
            let later = mono.later w.ticks (w.ticks + 1) (omega arith) in
            let eq = sym (ap (after_check rest w) fine) ∙ h in
            (
              accepted-later (host.clock w.ticks) a b fine,
              Unexpired-before _ _ rest later
                  (revalidate-Unexpired rest (record w { ticks = w.ticks + 1 }) eq),
            )
        | inr (exc, bad) ↦ absurd (ground (arith, sym (ap (after_check rest w) bad) ∙ h))
      ]

outcome_cases :
    {A S : Type 0} (x : Result A × S)
    → ((exc : Exc) × (s : S) × (x ≡ (raised exc, s))) ⊎ ((a : A) × (s : S) × (x ≡ (ok a, s)))
outcome_cases (raised exc, s) = inl (exc, s, refl)
outcome_cases (ok a, s) = inr (a, s, refl)

module _ (settings : GestaltSettings) (host : Host) (prompt : String) (agents : Specialists) where
  -- A cycle that returns the state with which the graph has ended, in which every approval expires later
  -- than the next reading of the clock.
  pub record ReturnsUnexpired (limit : ℕ) (request : CycleRequest) (w : World) : Type 0 where
    pub start : GestaltGraphState
    pub begun : World
    pub after : GestaltGraphState
    pub end_world : World
    pub built : build_graph_state host request w ≡ (ok start, begun)
    pub ended : visit settings host prompt agents limit start begun ≡ (ok after, end_world)
    pub unexpired : Unexpired (host.clock end_world.ticks) after.approvals
    pub result : (run_cycle settings host prompt agents limit request w).0 ≡ ok after

  abbrev of_start : ℕ → Result GestaltGraphState × World → Result GestaltGraphState
  of_start limit x =
      (continue x.0 (λ state v. (visit settings host prompt agents limit state >>= checked host) v)
        x.1).0

  abbrev of_end : Result GestaltGraphState × World → Result GestaltGraphState
  of_end x = (continue x.0 (checked host) x.1).0

  abbrev of_check : GestaltGraphState → World → Result (Unit {0}) → Result GestaltGraphState
  of_check g v r = (continue r (λ _ u. (ok g, u)) (revalidate host g.approvals v).1).0

  -- A cycle either raises an exception or returns the state with which the graph has ended, and then every
  -- approval in that state expires later than the reading of the clock that follows the end. So a cycle with an
  -- approval that has expired by then raises, although the graph has ended. The clock must not go back.
  pub run_cycle_cases :
      IsMonotone host
      → (limit : ℕ) (request : CycleRequest) (w : World)
      → ((exc : Exc) × ((run_cycle settings host prompt agents limit request w).0 ≡ raised exc))
        ⊎ ReturnsUnexpired limit request w
  unfolding run_cycle
  run_cycle_cases mono limit request w = elim (outcome_cases (build_graph_state host request w)) [
    | inl (exc, v, failed) ↦ inl (exc, ap (of_start limit) failed)
    | inr (start, v, built) ↦
        elim (outcome_cases (visit settings host prompt agents limit start v)) [
          | inl (exc, u, failed) ↦ inl (exc, ap (of_start limit) built ∙ ap of_end failed)
          | inr (after, u, ended) ↦ elim (Result-cases (revalidate host after.approvals u).0) [
            | inl (t, fine) ↦ inr (record {
              start = start;
              begun = v;
              after = after;
              end_world = u;
              built = built;
              ended = ended;
              unexpired = revalidate-Unexpired host mono after.approvals u fine;
              result = ap (of_start limit) built ∙ ap of_end ended ∙ ap (of_check after u) fine;
            })
            | inr (exc, bad) ↦
                inl (exc, ap (of_start limit) built ∙ ap of_end ended ∙ ap (of_check after u) bad)
          ]
        ]
  ]
