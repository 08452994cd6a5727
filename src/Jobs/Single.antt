-- ===== src/Jobs/Single.antt =====
-- The runs of one runner in src/runner/runner.ts do not overlap, up to the first timer that fires.
use mathlib.Core.Path.{subst}
use lodestar_server.Prelude.{
  sym, ℕ, ◌+◌, ◌-◌, ◌*◌, ◌≤◌, String, ◌≡◌, ◌∙◌, refl, ap, Bool, true, false, some, List, [], ◌∷◌,
  ◌++◌, map, length, eqb, leb, is_none, arith, Bool-cases, if_both, Option-cases, inl, inr, eq_refl,
  All,
}
use lodestar_server.Redis.{Redis, Value, entry}
use lodestar_server.Jobs.Lock.{lock_key}
use lodestar_server.Jobs.Runner.{
  Run, Process, Call, Event, fires, ends, waits, frees, exits, suicide_after, older, is_due,
  start_run, end_run, pass_time, free_lock, shut_down, step_process, run_process,
}

-- The interval that the timer is set to is not greater than that of the lock, and Redis answers the call
-- within nine tenths of it.
abbrev pub IsTimely : Event → Type 0
IsTimely (fires call reachable) =
    (call.timer_interval ≤ call.lock_interval) × (call.delay * 10 ≤ call.lock_interval * 9)
IsTimely _ = Unit

module _ (r : Redis) (key uuid : String) where
  abbrev own_key : String
  own_key = lock_key key (some uuid)

  -- The process is stopping, or no run is under way, or one, and the lock lasts at least until its timer
  -- fires.
  data IsSingle (p : Process r.Store) : Type 0 where
    stopping : p.is_stopping ≡ true → IsSingle p
    idle : p.runs ≡ [] → IsSingle p
    busy :
        (run : Run) (v : Value) (k : ℕ)
        → p.runs ≡ run ∷ []
        → r.find own_key p.store ≡ entry v (some k)
        → run.timeout ≤ run.age + k
        → IsSingle p

  start_run-IsSingle :
      (call : Call) (p : Process r.Store)
      → call.timer_interval ≤ call.lock_interval
      → call.delay * 10 ≤ call.lock_interval * 9
      → IsSingle p
      → IsSingle (start_run r key uuid call p)
  unfolding start_run
  start_run-IsSingle call p le soon (stopping t) =
      if_both IsSingle (eqb call.lock_interval 0) p _ (stopping t) (stopping t)
  start_run-IsSingle call p le soon (busy run v k runs held near) =
      elim (Bool-cases (eqb call.lock_interval 0)) [
        | inl never ↦ rw (start_run, never) (busy run v k runs held near)
        | inr positive ↦
            let got = r.set_nx own_key call.now (call.lock_interval * 2) p.store in
            let reply : got.0 ≡ false =
              r.set_nx_reply own_key call.now (call.lock_interval * 2) p.store ∙ ap is_none held in
            let kept : r.find own_key got.1 ≡ entry v (some k) =
              r.find-set_nx own_key own_key call.now (call.lock_interval * 2) p.store
              ∙ rw (eq_refl own_key, held) refl in
            rw (start_run, positive, reply) (busy run v k runs kept near)
      ]
  start_run-IsSingle call p le soon (idle runs) = elim (Bool-cases (eqb call.lock_interval 0)) [
    | inl never ↦ rw (start_run, never) (idle runs)
    | inr positive ↦
        let ttl = call.lock_interval * 2 in
        let got = r.set_nx own_key call.now ttl p.store in
        let answer : got.0 ≡ is_none (r.find own_key p.store) =
          r.set_nx_reply own_key call.now ttl p.store in
        elim (Option-cases (r.find own_key p.store)) [
          | inl free ↦
              let reply : got.0 ≡ true = answer ∙ ap is_none free in
              let taken : r.find own_key got.1 ≡ entry call.now (some ttl) =
                r.find-set_nx own_key own_key call.now ttl p.store
                ∙ rw (eq_refl own_key, free) refl in
              let run : Run = record {
                age = 0;
                timeout = call.delay + suicide_after call.timer_interval;
              } in
              rw (start_run, positive, reply)
                (busy run call.now ttl (ap (λ rs. rs ++ (run ∷ [])) runs) taken
                  (omega (arith, le, soon)))
          | inr (e, held) ↦
              let reply : got.0 ≡ false = answer ∙ ap is_none held in
              rw (start_run, positive, reply) (idle runs)
        ]
  ]

  end_run-IsSingle :
      (is_completed reachable : Bool) (p : Process r.Store)
      → IsSingle p
      → IsSingle (end_run r key uuid is_completed reachable p)
  unfolding end_run
  end_run-IsSingle is_completed reachable p (idle runs) = idle (rw (end_run, runs) runs)
  end_run-IsSingle is_completed true p (busy run v k runs held near) =
      idle (rw (end_run, runs) refl)
  end_run-IsSingle true false p (busy run v k runs held near) = idle (rw (end_run, runs) refl)
  end_run-IsSingle false false p (busy run v k runs held near) =
      rw (end_run, runs) (busy run v k runs held near)
  end_run-IsSingle is_completed reachable p (stopping t) = stopping (ground (arith, t))

  pass_time-IsSingle :
      (n : ℕ) (p : Process r.Store) → IsSingle p → IsSingle (pass_time r key uuid n p)
  unfolding pass_time
  pass_time-IsSingle n p (stopping t) = stopping (rw t refl)
  pass_time-IsSingle n p (idle runs) = idle (ap (map (older n)) runs)
  pass_time-IsSingle n p (busy run v k runs held near) = elim (Bool-cases (is_due (older n run))) [
    | inl due ↦ stopping (rw (runs, due) (ground arith))
    | inr early ↦
        let left : leb k n ≡ false = ground arith in
        busy (older n run) v (k - n) (ap (map (older n)) runs)
          (r.find-elapse own_key n p.store ∙ rw (held, left) refl) (ground arith)
  ]

  free_lock-IsSingle :
      (reachable : Bool) (p : Process r.Store)
      → IsSingle p
      → IsSingle (free_lock r key uuid reachable p)
  unfolding free_lock
  free_lock-IsSingle reachable p h = elim (Bool-cases p.is_stopping) [
    | inl t ↦ if_both IsSingle p.is_stopping _ p (stopping t) h
    | inr f ↦
        let same : free_lock r key uuid reachable p ≡ p = ground (arith, f) in
        subst IsSingle (sym same) h
  ]

  step_process-IsSingle :
      (e : Event) (p : Process r.Store)
      → IsTimely e
      → IsSingle p
      → IsSingle (step_process r key uuid e p)
  unfolding step_process shut_down
  step_process-IsSingle (fires call true) p timely h =
      if_both IsSingle p.is_alive _ p (start_run-IsSingle call p timely.0 timely.1 h) h
  step_process-IsSingle (fires call false) p timely h = if_both IsSingle p.is_alive _ p h h
  step_process-IsSingle (ends is_completed reachable) p timely h =
      if_both IsSingle p.is_alive _ p (end_run-IsSingle is_completed reachable p h) h
  step_process-IsSingle (waits n) p timely h =
      if_both IsSingle p.is_alive _ p (pass_time-IsSingle n p h) h
  step_process-IsSingle (frees reachable) p timely h =
      if_both IsSingle p.is_alive _ p (free_lock-IsSingle reachable p h) h
  step_process-IsSingle exits p timely h =
      if_both IsSingle p.is_alive _ p (if_both IsSingle p.is_freed _ p (idle refl) h) h

  run_process-IsSingle :
      (events : List Event) (p : Process r.Store)
      → All IsTimely events
      → IsSingle p
      → IsSingle (run_process r key uuid events p)
  run_process-IsSingle [] p timely h = h
  run_process-IsSingle (e ∷ events) p timely h =
      run_process-IsSingle events (step_process r key uuid e p) timely.1
        (step_process-IsSingle e p timely.0 h)

  IsSingle-length : (p : Process r.Store) → IsSingle p → p.is_stopping ≡ false → length p.runs ≤ 1
  IsSingle-length p (stopping t) f = absurd (cc (t, f))
  IsSingle-length p (idle runs) f = rw runs (omega arith)
  IsSingle-length p (busy run v k runs held near) f = rw runs (omega arith)

  -- If no call's timer is set to a greater interval than its lock and Redis answers each call within nine
  -- tenths of that interval: however the scheduler calls run, runs end, Redis fails and time passes, a
  -- process that starts without a run has at most one run of its runner under way, as long as no timer has
  -- fired.
  pub runs-le_one :
      (events : List Event) (p : Process r.Store)
      → p.runs ≡ []
      → All IsTimely events
      → (run_process r key uuid events p).is_stopping ≡ false
      → length (run_process r key uuid events p).runs ≤ 1
  runs-le_one events p none_yet timely running =
      IsSingle-length (run_process r key uuid events p)
        (run_process-IsSingle events p timely (idle none_yet)) running
