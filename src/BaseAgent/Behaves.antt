-- ===== src/BaseAgent/Behaves.antt =====
-- Steps of an agent that change the services in a certain way, with what they give.
use gestalt_agentic_software.BaseAgent.Update.{Gives}
use gestalt_agentic_software.Blackboard.{GestaltBlackboard}
use gestalt_agentic_software.BaseAgent.Clock.{Goes-refl, Advances, Goes, Goes-trans}
use gestalt_agentic_software.Runtime.{Host, Session, World}
use gestalt_agentic_software.Prelude.{Bool, arith, ◌≡◌, true, false, refl}
use gestalt_agentic_software.Python.Exec.{
  Exec, Result, pure, lift, validated, ok, ◌>>=◌, continue, raised,
}
use gestalt_agentic_software.Runtime

-- A way to change the services that may be repeated and that allows every step that goes on and calls
-- nothing outside.
pub record IsStep (R : World → World → Type 0) : Type 0 where
  pub refl : (w : World) → R w w
  pub trans : (u v w : World) → R u v → R v w → R u w
  pub quiet : (w v : World) → Goes w v → v.outside ≡ w.outside → R w v

-- From every session the step changes the services in that way, and what it gives has the property.
pub record Behaves (R : World → World → Type 0) {A : Type 0} (P : A → Type 0) (m : Exec Session A)
    : Type 0 where
  pub goes : (s : Session) → R s.world (m s).1.world
  pub gives : (s : Session) (a : A) → (m s).0 ≡ ok a → P a

-- Nothing is said of what the step gives.
abbrev pub Runs : (World → World → Type 0) → {A : Type 0} → Exec Session A → Type 0
Runs R m = Behaves R (λ _. Unit {0}) m

pub Goes-IsStep : IsStep Goes
Goes-IsStep = record { refl = Goes-refl; trans = Goes-trans; quiet = λ w v g e. g }

pub Behaves→Advances :
    {A : Type 0} {P : A → Type 0} (m : Exec Session A) → Behaves Goes P m → Advances m
Behaves→Advances m h = record { at = h.goes }

pub Behaves→Gives :
    {R : World → World → Type 0} {A : Type 0} (P : A → Type 0) (m : Exec Session A)
    → Behaves R P m
    → Gives P m
Behaves→Gives P m h = record { at = h.gives }

pub on_world-Runs :
    {R : World → World → Type 0} {A : Type 0} (m : Exec World A)
    → ((w : World) → R w (m w).1)
    → Runs R (Runtime.on_world m)
on_world-Runs m h = record { goes = λ s. h s.world; gives = λ s b e. tt }

-- A constructor's check passes on the object, and the test holds of it.
pub validated-ok : {A : Type 0} (b : Bool) (x y : A) → validated b x ≡ ok y → (b ≡ true) × (x ≡ y)
validated-ok true x y e = ground arith
validated-ok false x y e = cc

module _ {R : World → World → Type 0} (laws : IsStep R) where
  module _ {A B : Type 0} (P : B → Type 0) where
    after_goes :
        (Q : A → Type 0) (r : Result A) (f : A → Exec Session B) (t : Session)
        → ((a : A) → r ≡ ok a → Q a)
        → ((a : A) → Q a → Behaves R P (f a))
        → R t.world (continue r f t).1.world
    after_goes Q (ok a) f t q k = (k a (q a refl)).goes t
    after_goes Q (raised e) f t q k = laws.refl t.world

    after_gives :
        (Q : A → Type 0) (r : Result A) (f : A → Exec Session B) (t : Session)
        → ((a : A) → r ≡ ok a → Q a)
        → ((a : A) → Q a → Behaves R P (f a))
        → (b : B) → (continue r f t).0 ≡ ok b
        → P b
    after_gives Q (ok a) f t q k b e = (k a (q a refl)).gives t b e
    after_gives Q (raised x) f t q k b e = cc

    pub bind-Behaves :
        (Q : A → Type 0) (m : Exec Session A) (f : A → Exec Session B)
        → Behaves R Q m
        → ((a : A) → Q a → Behaves R P (f a))
        → Behaves R P (m >>= f)
    bind-Behaves Q m f h k = record {
      goes = λ s.
          laws.trans s.world (m s).1.world _ (h.goes s)
            (after_goes Q (m s).0 f (m s).1 (h.gives s) k);
      gives = λ s b e. after_gives Q (m s).0 f (m s).1 (h.gives s) k b e;
    }

    -- A step of which nothing is asked, and the rest.
    pub then-Behaves :
        (m : Exec Session A) (f : A → Exec Session B)
        → Runs R m
        → ((a : A) → Behaves R P (f a))
        → Behaves R P (m >>= f)
    then-Behaves m f h k = bind-Behaves (λ _. Unit {0}) m f h (λ a _. k a)

  module _ {A : Type 0} where
    pub lift-Behaves :
        (P : A → Type 0) (r : Result A) → ((a : A) → r ≡ ok a → P a) → Behaves R P (lift r)
    lift-Behaves P r h = record { goes = λ s. laws.refl s.world; gives = λ s a e. h a e }

    pub lift-Runs : (r : Result A) → Runs R (lift r)
    lift-Runs r = lift-Behaves (λ _. Unit {0}) r (λ a e. tt)

    pub pure-Runs : (a : A) → Runs R (pure a)
    pure-Runs a = record { goes = λ s. laws.refl s.world; gives = λ s b e. tt }

    pub on_board-Runs : (m : Exec GestaltBlackboard A) → Runs R (Runtime.on_board m)
    on_board-Runs m = record {
      goes = λ s. laws.quiet s.world _ (record { later = omega arith; memory = λ k. k }) refl;
      gives = λ s b e. tt;
    }

  pub new_uuid-Runs : Runs R (Runtime.on_world Runtime.new_uuid)
  unfolding Runtime.new_uuid
  new_uuid-Runs =
      on_world-Runs _ (λ w. laws.quiet w _ (record { later = omega arith; memory = λ k. k }) refl)

  pub utc_now-Runs : (host : Host) → Runs R (Runtime.on_world (Runtime.utc_now host))
  unfolding Runtime.utc_now
  utc_now-Runs host =
      on_world-Runs _ (λ w. laws.quiet w _ (record { later = omega arith; memory = λ k. k }) refl)
