-- ===== src/Tests/Jobs.antt =====
-- The runs of a runner, and two of its instances.
use lodestar_server.Prelude.{
  ℕ, arith, ◌≡◌, ◌≤◌, refl, true, false, some, List, [], ◌∷◌, length, eq_iff,
}
use lodestar_server.Redis.{int}
use lodestar_server.Jobs.Lock.{occupy_lock, occupy_lock_other}
use lodestar_server.Jobs.Runner.{
  Call, Event, Process, fires, ends, waits, frees, step_process, run_process,
}
use lodestar_server.Jobs.Single.{IsTimely, runs-le_one}
use lodestar_server.Tests.Server.{server, blank}

-- Two processes that run the same runner have identities of their own, so the second one's run starts
-- while the first one's is under way.
occupy_lock_other_example :
    (occupy_lock server "InvoiceRunner"
      (some "v")
      (int 2)
      60000
      (occupy_lock server "InvoiceRunner" (some "u") (int 1) 60000 blank).1).0
    ≡ (occupy_lock server "InvoiceRunner" (some "v") (int 2) 60000 blank).0
occupy_lock_other_example =
    occupy_lock_other server "InvoiceRunner" "u" "v" (int 1) (int 2) 60000 60000 blank refl refl
      (λ e. cc ((eq_iff "u" "v").1 e))

abbrev call : ℕ → Call
call now = record { lock_interval = 30000; delay = 5; timer_interval = 30000; now = int now }

abbrev calls : List Event
calls =
    fires (call 0) true
    ∷ waits 30000
    ∷ fires (call 30000) true
    ∷ ends true true
    ∷ fires (call 30001) true
    ∷ []

abbrev new_process : Process server.Store
new_process = record {
  store = blank;
  is_alive = true;
  is_stopping = false;
  is_freed = false;
  runs = [];
}

timely : IsTimely (fires (call 0) true)
timely = (omega arith, omega arith)

runs-le_one_example : length (run_process server "lock" "u" calls new_process).runs ≤ 1
unfolding step_process
runs-le_one_example =
    runs-le_one server "lock" "u" calls new_process refl
      (timely, (tt, (timely, (tt, (timely, tt))))) refl

-- A run is under way at the end.
run_under_way : length (run_process server "lock" "u" calls new_process).runs ≡ 1
unfolding step_process
run_under_way = refl

-- The interval grows between the lock and the timer: the lock ends first, and two runs are under way.
abbrev overtaken : List Event
overtaken =
    fires (record { lock_interval = 100; delay = 5; timer_interval = 30000; now = int 0 }) true
    ∷ waits 300
    ∷ fires (call 300) true
    ∷ []

two_of_grown_interval : length (run_process server "lock" "u" overtaken new_process).runs ≡ 2
unfolding step_process
two_of_grown_interval = refl

-- The timer has fired and released the lock, and the process is not yet shut down.
abbrev stopped : List Event
stopped = fires (call 0) true ∷ waits 40000 ∷ frees true ∷ fires (call 40000) true ∷ []

two_of_stopping : length (run_process server "lock" "u" stopped new_process).runs ≡ 2
unfolding step_process
two_of_stopping = refl
