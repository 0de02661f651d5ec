-- ===== src/Fixture/Runs.antt =====
-- What the callbacks of the fixture's machine do, and the world and the event that the examples start with.
use mathlib.Core.List.{Memᴰ}
use protostate.Common.{none, some, [], ◌∷◌, arith}
use protostate.Psm.Model.{EventSpec}
use protostate.Psm.Host.{World}
use protostate.Psm.Callbacks.{TransitionHook}
use protostate.Psm.Transition.{TransitionSpec}
use protostate.Psm.Induction.{CallbacksMove, EventHookMoves}
use protostate.Psm.EventLog.{Grows, Grows-path}
use protostate.Psm.Hooks.{run_event_hook}
use protostate.Fixture.Shop.{shop, opened}
use protostate.Psm.Callbacks.{specific}
use protostate.Fixture.Machine.{host, name_chained, opening, renaming, machine}
use protostate.Fixture.Storage.{storage}

name_chained-Grows : EventHookMoves (Grows storage) (specific name_chained)
unfolding run_event_hook
name_chained-Grows baton state event = record {
  at = λ w calls w' q. (Grows-path storage).same_db w w' (ground (arith, q));
}

only_hook :
    (spec : TransitionSpec host)
    → Memᴰ spec (opening ∷ renaming ∷ [])
    → (hook : TransitionHook host) → Memᴰ hook spec.hooks
    → EventHookMoves (Grows storage) (specific hook)
only_hook spec (Memᴰ.head p) hook k = registered hook (rw p at k)
  where
    registered :
        (hook : TransitionHook host)
        → Memᴰ hook (name_chained ∷ [])
        → EventHookMoves (Grows storage) (specific hook)
    registered hook (Memᴰ.head q) = rw q name_chained-Grows
    registered hook (Memᴰ.tail l) = elim l [ ]
only_hook spec (Memᴰ.tail (Memᴰ.head p)) hook k = none_registered hook (rw p at k)
  where
    none_registered :
        (hook : TransitionHook host) → Memᴰ hook [] → EventHookMoves (Grows storage) (specific hook)
    none_registered hook m = elim m [ ]
only_hook spec (Memᴰ.tail (Memᴰ.tail m)) hook k = elim m [ ]

-- The callbacks of the machine leave the world alone.
pub callbacks : CallbacksMove (Grows storage) machine
callbacks = record {
  hooks = only_hook;
  global_event_hooks = λ hook m. elim m [ ];
  global_state_hooks = λ hook m. elim m [ ];
  initial = λ f q. absurd (ground (arith, q));
}

abbrev pub before : World host
before = record {
  db = record { state_rows = []; event_rows = []; outbox = [] };
  draws = 0;
  readings = 0;
}

pub before-Valid : storage.Valid before.db
unfolding storage
before-Valid a b v m = elim m [ ]

abbrev pub open_order : EventSpec shop
open_order = record {
  keys = "order-1";
  event_id = "event-1";
  event = opened;
  cause = none;
  action = some "user";
  message = none;
  timestamp = 0;
}
