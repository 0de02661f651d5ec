-- ===== src/Psm/Run/Inversion.antt =====
-- What a successful mutate_and_store has done on its way.
use protostate.Common.{◌≡◌, ◌≢◌, ok, arith}
use protostate.Psm.Model.{Entity, State, Event}
use protostate.Psm.Host.{Host, World}
use protostate.Psm.Tx.{◌>>=◌, bind-ok, lift-bind-ok}
use protostate.Psm.Transition.{Transition, build_transition, run_mutations}
use protostate.Psm.Machine.{StateMachine, store}
use protostate.Psm.Run.{store_after_mutation, mutate_and_store}

module _ {e : Entity} {h : Host e} (sm : StateMachine h) where
  pub store_after_mutation-ok :
      (state : State e) (event : Event e) (w w' : World h)
      → store_after_mutation sm state event w ≡ ok (tt, w')
      → (state.status ≢ 0)
        × (h.validate_state state ≡ ok tt)
        × (store sm state event w ≡ ok (tt, w'))
  unfolding store_after_mutation ◌>>=◌
  store_after_mutation-ok state event w w' q = (ground arith, ground arith, ground arith)

  pub record Stored (state : State e) (event : Event e) (w w' : World h) (t : Transition h)
      (mutated : State e) : Type 0 where
    pub built : build_transition sm.transition_set state.status (h.event_key event.inner) ≡ ok t
    pub ran : run_mutations t state event ≡ ok mutated
    pub status_set : mutated.status ≢ 0
    pub wrote : store sm mutated event w ≡ ok (tt, w')

  pub mutate_and_store-ok :
      (state : State e) (event : Event e) (w w' : World h) (t : Transition h) (mutated : State e)
      → mutate_and_store sm state event w ≡ ok ((t, mutated), w')
      → Stored state event w w' t mutated
  unfolding mutate_and_store ◌>>=◌
  mutate_and_store-ok state event w w' t mutated q =
      let (t1, q1, r1) =
        lift-bind-ok (build_transition sm.transition_set state.status (h.event_key event.inner)) _ w
          q in
      let (m1, q2, r2) = lift-bind-ok (run_mutations t1 state event) _ w r1 in
      let (u, v, q3, r3) = bind-ok (store_after_mutation sm m1 event w) _ r2 in
      let done = store_after_mutation-ok m1 event w v q3 in
      record {
        built = ground arith;
        ran = ground arith;
        status_set = ground arith;
        wrote = ground arith;
      }
