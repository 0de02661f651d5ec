-- ===== src/Psm/Database.antt =====
-- The methods that open a transaction: DBStateMachine in psm/statemachine.go.
use protostate.Common.{ℕ, List, [], ◌∷◌, Result}
use protostate.Psm.Model.{Entity, State, Event, EventSpec}
use protostate.Psm.Host.{Host, World}
use protostate.Psm.Machine.{StateMachine}
use protostate.Psm.Entry.{run_tx, follow_events}

-- sqrlx's Transact. Its callback may run several times, so it takes what it captures and changes, and
-- leaves that for the next attempt and for the caller.
abbrev pub Transactor : {e : Entity} → Host e → Type 1
Transactor h =
    (A S : Type 0)
    → (S → World h → Result (A × World h) × S)
    → S
    → World h
    → Result (A × World h) × S

module _ {e : Entity} {h : Host e} (sm : StateMachine h) where
  -- TransitionInTx
  pub transition_in_tx : ℕ → EventSpec e → World h → Result (State e × World h) × EventSpec e
  transition_in_tx fuel event w = run_tx sm fuel event w

  module _ (transact : Transactor h) where
    -- Transition
    pub db_transition : ℕ → EventSpec e → World h → Result (State e × World h) × EventSpec e
    db_transition fuel event = transact (State e) (EventSpec e) (run_tx sm fuel) event

    -- FollowEvents
    pub db_follow_events : ℕ → List (Event e) → World h → Result (Unit {0} × World h)
    db_follow_events fuel events w =
        (transact (Unit {0}) (Unit {0}) (λ s v. (follow_events sm fuel events v, s)) tt w).0

    -- FollowEvent
    pub db_follow_event : ℕ → Event e → World h → Result (Unit {0} × World h)
    db_follow_event fuel event w =
        (transact (Unit {0}) (Unit {0}) (λ s v. (follow_events sm fuel (event ∷ []) v, s)) tt w).0
