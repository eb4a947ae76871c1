-- ===== src/Tests/Connecting.antt =====
-- Runs of the connectors at concrete inputs.
use qbus.Prelude.{min, ℕ, some, none, ◌+◌, ◌≡◌, refl, arith, true, false, [], ◌∷◌, done}
use qbus.Timespec
use qbus.Timespec.{Timespec, IsNormal}
use qbus.Locker.Calls
use qbus.Connector
use qbus.Connector.{Connector, Virtuals}
use qbus.Connector.Timed
use qbus.Connector.Timed.{Ends}
use qbus.Locker
use qbus.Connector.Safe
use qbus.Connector.Safe.Push
use qbus.Connector.Safe.Rounds
use qbus.Connector.Safe.Rounds.{IsLate}
use qbus.Connector.Safe.Get
use qbus.Connector.Safe.Ready
use qbus.Locker.Barrier
use qbus.Locker.Barrier.{Barrier}

-- A full connector, and a clock that shows a second more at every read.
abbrev toy_connector : Virtuals ℕ ℕ ℕ
toy_connector = record {
  do_create = λ w cid size timeout parent. (w, true);
  do_open = λ w parent. (w, true);
  do_push = λ w tag source. (w + 1, false);
  do_get = λ w. (w + 1, none);
  do_pop = λ w. (w + 1, false);
  get_capacity = λ w. 100;
}

abbrev pub seconds : ℕ → Timespec
seconds k = record { tv_sec = k; tv_nsec = 0 }

abbrev full_connector : Connector ℕ
full_connector = record { state = 0; direction = Connector.con_bidir; opened = true; ticks = 0 }

timed-Ends_example :
    Ends toy_connector seconds
      (Connector.timed_push toy_connector seconds 3 full_connector 5 (1 ∷ []) (seconds 2))
    × Ends toy_connector seconds
        (Connector.timed_get toy_connector seconds 3 full_connector (seconds 2))
    × Ends toy_connector seconds
        (Connector.timed_pop toy_connector seconds 3 full_connector (seconds 2))
unfolding Timespec.lt Timespec.add
timed-Ends_example =
    Timed.timed-Ends toy_connector seconds 1 3 full_connector 5 (1 ∷ []) (seconds 2) refl
      (omega arith)

-- A `safe_connector` over a free `shared_locker`, whose connector below takes every message.
abbrev taking : Virtuals ℕ ℕ ℕ
taking = record toy_connector {
  do_push = λ w tag source. (w + 1, true);
  do_get = λ w. (w, some w);
  do_pop = λ w. (w + 1, true);
}

abbrev safe_state : Safe.Safe Calls.Timed ℕ Barrier
safe_state = record {
  locker = record { locker = Locker.unlocked; ticks = 0 };
  inner = 0;
  barrier = Barrier.closed;
  ticks = 0;
}

base_push_lem_example :
    Safe.base_push (Calls.lockable seconds 3) taking safe_state 5 (1 ∷ [])
    ≡ done (record safe_state { inner = 1 }, true)
base_push_lem_example = Push.base_push_lem seconds 3 taking safe_state 5 (1 ∷ [])

safe_push-false_example :
    Safe.safe_push
      (Calls.lockable seconds 3)
      taking
      Safe.shared_barriers
      seconds
      safe_state
      5
      (1 ∷ [])
    ≡ done (safe_state, false)
safe_push-false_example =
    Push.safe_push-false seconds 3 taking Safe.shared_barriers safe_state 5 (1 ∷ [])

-- A clock that stands at five seconds in the end.
abbrev stopping : ℕ → Timespec
stopping k = record { tv_sec = min k 5; tv_nsec = 0 }

stopping-IsLate : IsLate stopping (Timespec.add (stopping 0) (seconds 2)) 2
unfolding Timespec.lt Timespec.add
stopping-IsLate k h = ground arith

timed_push-pop_example :
    Rounds.Ends
      (Calls.lockable stopping 3)
      Ready.writers
      Ready.Free
      taking
      Safe.shared_barriers
      stopping
      (λ w. taking.do_push w 5 (1 ∷ []))
      safe_state
      (Safe.timed_push
        (Calls.lockable stopping 3)
        taking
        Safe.shared_barriers
        stopping
        3
        safe_state
        5
        (1 ∷ [])
        (seconds 2))
    × Rounds.Ends
        (Calls.lockable stopping 3)
        Ready.writers
        Ready.Free
        taking
        Safe.shared_barriers
        stopping
        taking.do_pop
        safe_state
        (Safe.timed_pop
          (Calls.lockable stopping 3)
          taking
          Safe.shared_barriers
          stopping
          Safe.exclusive
          3
          safe_state
          (seconds 2))
timed_push-pop_example =
    Rounds.timed_push-pop (Calls.lockable stopping 3) Ready.writers Ready.Free taking
      Safe.shared_barriers stopping 2 3 safe_state 5 (1 ∷ []) Safe.exclusive (seconds 2)
      (Ready.Free-Locks stopping 2).0 (Ready.Free-Locks stopping 2).0 refl stopping-IsLate
      (omega arith) (omega arith)

timed_get-Gets_example :
    Get.Gets
      (Calls.lockable stopping 3)
      Ready.readers
      Ready.Free
      toy_connector
      Safe.shared_barriers
      Ready.Calm
      stopping
      safe_state
      (Safe.timed_get
        (Calls.lockable stopping 3)
        toy_connector
        Safe.shared_barriers
        stopping
        3
        safe_state
        (seconds 2))
timed_get-Gets_example =
    Get.timed_get-Gets (Calls.lockable stopping 3) Ready.readers Ready.Free toy_connector
      Safe.shared_barriers Ready.Calm stopping 2 3 safe_state (seconds 2)
      (Ready.Free-Locks stopping 2).1 refl Ready.Calm-Answers (refl, refl) stopping-IsLate
      (omega arith) (omega arith)
