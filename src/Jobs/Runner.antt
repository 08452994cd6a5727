-- ===== src/Jobs/Runner.antt =====
-- src/runner/runner.ts: the runs of one runner in one process. A run is under way from the moment it holds
-- the lock until it releases it, or the process is gone; its timer has the process shut down.
use Prim.Native.Nat.{◌/◌}
use lodestar_server.Prelude.{
  ℕ, ◌+◌, ◌*◌, String, Bool, true, false, ◌||◌, some, List, [], ◌∷◌, ◌++◌, map, any, eqb, leb,
  if◌then◌else◌,
}
use lodestar_server.Redis.{Redis, Value}
use lodestar_server.Jobs.Lock.{occupy_lock, release_lock}

-- A run that holds the lock: how long, and at which age its timer fires.
pub record Run : Type 0 where
  pub age : ℕ
  pub timeout : ℕ

-- From the first timer that fires on the process is stopping.
pub record Process (S : Type 0) : Type 0 where
  pub store : S
  pub is_alive : Bool
  pub is_stopping : Bool
  pub is_freed : Bool
  pub runs : List Run

-- A call of run: `this.interval` as it is read for the lock, how long the answer of Redis takes, and
-- `this.interval` as it is read after that for the timer, as getInterval may have set it in between.
pub record Call : Type 0 where
  pub lock_interval : ℕ
  pub delay : ℕ
  pub timer_interval : ℕ
  pub now : Value

-- What happens to the process: the scheduler calls run, with whether Redis answers; the oldest run's execute
-- ends, without an error or with one, with whether Redis answers; time passes; a process that is stopping
-- settles the release of its lock, with whether Redis answers; it shuts down.
pub data Event : Type 0 where
  fires : Call → Bool → Event
  ends : Bool → Bool → Event
  waits : ℕ → Event
  frees : Bool → Event
  exits : Event

-- `this.interval * 1.1`, as the timer truncates it.
abbrev pub suicide_after : ℕ → ℕ
suicide_after interval = interval * 11 / 10

abbrev pub older : ℕ → Run → Run
older n run = record run { age = run.age + n }

abbrev pub is_due : Run → Bool
is_due run = leb run.timeout run.age

module _ (r : Redis) (key uuid : String) where
  -- The lock is taken for twice the interval, which Redis refuses when it is 0.
  unfoldable pub start_run : Call → Process r.Store → Process r.Store
  unfolding occupy_lock
  start_run call p =
      let got = occupy_lock r key (some uuid) call.now (call.lock_interval * 2) p.store in
      if eqb call.lock_interval 0 then p else record p {
        store = got.1;
        runs =
            if got.0
            then p.runs
              ++ (record { age = 0; timeout = call.delay + suicide_after call.timer_interval } ∷ [])
            else p.runs;
      }

  -- After execute: the lock is released and the timer cleared; without Redis neither is, and the timer
  -- finds the run completed or not.
  unfoldable pub end_run : Bool → Bool → Process r.Store → Process r.Store
  unfolding release_lock
  end_run is_completed reachable p = elim p.runs [
    | [] ↦ p
    | run ∷ runs ↦
        if reachable
        then record p { store = release_lock r key (some uuid) p.store; runs = runs }
        else if is_completed
        then record p { runs = runs }
        else p
  ]

  -- A timer that fires calls Runner.suicide, while the runs go on.
  unfoldable pub pass_time : ℕ → Process r.Store → Process r.Store
  pass_time n p =
      let runs = map (older n) p.runs in
      record p {
        store = r.elapse n p.store;
        is_stopping = p.is_stopping || any is_due runs;
        runs = runs;
      }

  -- Runner.suicide up to its `finally`: the lock is released, or the release throws.
  unfoldable pub free_lock : Bool → Process r.Store → Process r.Store
  unfolding release_lock
  free_lock reachable p =
      if p.is_stopping
      then record p {
        store = if reachable then release_lock r key (some uuid) p.store else p.store;
        is_freed = true;
      }
      else p

  -- The shutdown that follows.
  unfoldable pub shut_down : Process r.Store → Process r.Store
  shut_down p = if p.is_freed then record p { is_alive = false; runs = [] } else p

  unfoldable pub step_process : Event → Process r.Store → Process r.Store
  unfolding start_run end_run pass_time free_lock shut_down
  step_process e p =
      if p.is_alive
      then elim e [
        | fires call reachable ↦ if reachable then start_run call p else p
        | ends is_completed reachable ↦ end_run is_completed reachable p
        | waits n ↦ pass_time n p
        | frees reachable ↦ free_lock reachable p
        | exits ↦ shut_down p
      ]
      else p

  abbrev pub run_process : List Event → Process r.Store → Process r.Store
  run_process [] p = p
  run_process (e ∷ events) p = run_process events (step_process e p)
