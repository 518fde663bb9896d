-- ===== src/Events/History.antt =====
-- The memory bus over any sequence of calls: the orchestrator's approvals, publications at any time,
-- and closing. `issued` is every approval that was registered, the latest first.
use gestalt_agentic_software.Python.Exec.{ok, Exc, raised, event_approval_error, Result}
use gestalt_agentic_software.Events.Permission.{IsPermitted, validate_event_iff}
use gestalt_agentic_software.Protocol.Enums.{peer_signal}
use gestalt_agentic_software.Protocol.Models.{GestaltEvent, Uuid}
use gestalt_agentic_software.Protocol.Reports.{EventApproval}
use gestalt_agentic_software.Prelude.{
  List, [], ℕ, ◌≡◌, some, All-imp, ◌++◌, ◌∙◌, ◌∷◌, All, ap, arith, ◌⊎◌, sym, inl, inr, refl,
  All-append, ◌==◌, true, Option, ==_iff, Bool-cases,
}
use gestalt_agentic_software.Python.Dict
use gestalt_agentic_software.Python.Dict.{number_key}
use gestalt_agentic_software.Events.Memory.{MemoryEventBus}
use gestalt_agentic_software.Events.Memory
use mathlib.Core.List.{Memᴰ}
use mathlib.Core.Option.{some-injective}

module _ (bus : MemoryEventBus) (now : ℕ) (e : GestaltEvent) where
  publish_ok :
      Memory.validate_event bus now e ≡ ok tt
      → Memory.publish now e bus ≡ (ok e, record bus { events = bus.events ++ e ∷ [] })
  unfolding Memory.publish
  publish_ok h = ground arith

  module _ (x : Exc) (h : Memory.validate_event bus now e ≡ raised x) where
    publish_raised : Memory.publish now e bus ≡ (raised x, bus)
    unfolding Memory.publish
    publish_raised = ground arith

    refused_kind : x.kind ≡ event_approval_error
    unfolding Memory.validate_event
    refused_kind = ground arith

    refused-is_peer : e.event_type ≡ peer_signal
    unfolding Memory.validate_event
    refused-is_peer = ground arith

-- What one publication does. An event that is no peer signal, or that is permitted, is appended and
-- returned; any other raises an approval error and leaves the bus as it was.
pub publish_cases :
    (bus : MemoryEventBus) (now : ℕ) (e : GestaltEvent)
    → ((e.event_type ≡ peer_signal → IsPermitted bus now e)
        × (Memory.publish now e bus ≡ (ok e, record bus { events = bus.events ++ e ∷ [] })))
      ⊎ ((e.event_type ≡ peer_signal)
          × (¬ IsPermitted bus now e)
          × (x : Exc) × (Memory.publish now e bus ≡ (raised x, bus))
          × (x.kind ≡ event_approval_error))
publish_cases bus now e = split (Memory.validate_event bus now e) refl
  where
    accepted :
        Memory.validate_event bus now e ≡ ok tt → e.event_type ≡ peer_signal → IsPermitted bus now e
    accepted h peer = (validate_event_iff now e bus peer).0 h

    split :
        (r : Result (Unit {0}))
        → Memory.validate_event bus now e ≡ r
        → ((e.event_type ≡ peer_signal → IsPermitted bus now e)
            × (Memory.publish now e bus ≡ (ok e, record bus { events = bus.events ++ e ∷ [] })))
          ⊎ ((e.event_type ≡ peer_signal)
              × (¬ IsPermitted bus now e)
              × (x : Exc) × (Memory.publish now e bus ≡ (raised x, bus))
              × (x.kind ≡ event_approval_error))
    split (ok u) h = inl (accepted h, publish_ok bus now e h)
    split (raised x) h = inr (
      refused-is_peer bus now e x h,
      (λ p. cc ((validate_event_iff now e bus (refused-is_peer bus now e x h)).1 p)),
      x,
      publish_raised bus now e x h,
      refused_kind bus now e x h,
    )

pub record Ledger : Type 0 where
  pub bus : MemoryEventBus
  pub issued : List EventApproval

pub data Step : Ledger → Ledger → Type 0 where
  approve :
      (l : Ledger) (a : EventApproval)
      → Step l (record { bus = (Memory.approve a l.bus).1; issued = a ∷ l.issued })
  publish :
      (l : Ledger) (now : ℕ) (e : GestaltEvent)
      → Step l (record l { bus = (Memory.publish now e l.bus).1 })
  close : (l : Ledger) → Step l (record l { bus = (Memory.close l.bus).1 })

pub data Reach : Ledger → Type 0 where
  start : Reach (record { bus = Memory.fresh; issued = [] })
  next : {l m : Ledger} → Reach l → Step l m → Reach m

-- The event, if it is a peer signal, names an issued approval for its type, source and target.
pub record IsBacked (issued : List EventApproval) (e : GestaltEvent) : Type 0 where
  pub backed :
      e.event_type ≡ peer_signal
      → (a : EventApproval) × Memᴰ a issued
        × (e.approval_id ≡ some a.approval_id)
        × (a.permitted_event ≡ e.event_type)
        × (a.source_agent ≡ e.source_agent)
        × (a.target_agent ≡ Memory.or_empty e.target_agent)

record IsSound (l : Ledger) : Type 0 where
  held :
      (id : Uuid) (a : EventApproval)
      → Dict.get l.bus.approvals id ≡ some a
      → (a.approval_id ≡ id) × Memᴰ a l.issued
  events : All (IsBacked l.issued) l.bus.events

IsBacked-cons :
    (issued : List EventApproval) (a : EventApproval) (e : GestaltEvent)
    → IsBacked issued e
    → IsBacked (a ∷ issued) e
IsBacked-cons issued a e b = record {
  backed = λ peer.
      let (c, m, token, kind, source, target) = b.backed peer in
      (c, Memᴰ.tail m, token, kind, source, target);
}

IsPermitted→IsBacked :
    (l : Ledger) (now : ℕ) (e : GestaltEvent)
    → IsSound l
    → (e.event_type ≡ peer_signal → IsPermitted l.bus now e)
    → IsBacked l.issued e
IsPermitted→IsBacked l now e s permitted = record {
  backed = λ peer.
      let p = permitted peer in
      let (named, m) = s.held p.id p.approval p.held in
      (
        p.approval,
        m,
        p.token ∙ ap some (sym named),
        p.permits.event_type,
        p.permits.source,
        p.permits.target,
      );
}

approve-held :
    (l : Ledger) (a : EventApproval) (id : Uuid) (c : EventApproval)
    → IsSound l
    → Dict.get (Dict.put l.bus.approvals a.approval_id a) id ≡ some c
    → (c.approval_id ≡ id) × Memᴰ c (a ∷ l.issued)
approve-held l a id c s h = elim (Bool-cases (a.approval_id == id)) [
  | inl same ↦ newest same (rw (Dict.get-put, same) at h)
  | inr other ↦ let (named, m) = s.held id c (rw (Dict.get-put, other) at h) in (named, Memᴰ.tail m)
]
  where
    newest :
        (a.approval_id == id) ≡ true
        → ◌≡◌ {A = Option EventApproval} (some a) (some c)
        → (c.approval_id ≡ id) × Memᴰ c (a ∷ l.issued)
    newest same e =
        let is = some-injective a c e in
        (
          ap (λ (x : EventApproval). x.approval_id) (sym is) ∙ (==_iff a.approval_id id).0 same,
          Memᴰ.head (sym is),
        )

Step-IsSound : {l m : Ledger} → Step l m → IsSound l → IsSound m
unfolding Memory.approve Memory.close Dict.get
Step-IsSound (approve l a) s = record {
  held = λ id c h. approve-held l a id c s (unfold Memory.approve in h);
  events = All-imp _ _ l.bus.events (IsBacked-cons l.issued a) s.events;
}
Step-IsSound (close l) s = record { held = λ id c h. cc; events = tt }
Step-IsSound (publish l now e) s = elim (publish_cases l.bus now e) [
  | inl (permitted, eq) ↦ rw eq (record {
    held = s.held;
    events =
        All-append (IsBacked l.issued) l.bus.events (e ∷ []) s.events
          (IsPermitted→IsBacked l now e s permitted, tt);
  })
  | inr (peer, refused, x, eq, kind) ↦ rw eq s
]

Reach-IsSound : {l : Ledger} → Reach l → IsSound l
unfolding Dict.get
Reach-IsSound start = record { held = λ id c h. cc; events = tt }
Reach-IsSound (next r st) = Step-IsSound st (Reach-IsSound r)

-- However approvals, publications and closings follow one another, every peer signal in the memory
-- bus names an approval that was issued for its type, its source and its target.
pub events-IsBacked : {l : Ledger} → Reach l → All (IsBacked l.issued) l.bus.events
events-IsBacked r = (Reach-IsSound r).events
