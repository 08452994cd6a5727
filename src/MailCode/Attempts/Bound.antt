-- ===== src/MailCode/Attempts/Bound.antt =====
-- verifyDeviceBindCode under concurrency: the bound on the wrong codes that are compared.
use lodestar_server.Prelude.{
  ℕ, ◌+◌, ◌-◌, ◌≤◌, ◌<◌, String, ◌≡◌, refl, sym, ap, ◌∙◌, Bool, inl, inr, none, some, List, [], ◌∷◌,
  ltb, eqb, Bool-cases, Option-cases, length, arith, if◌then◌else◌,
}
use lodestar_server.Redis.{Redis, count_of, int, entry, aged}
use lodestar_server.Auth.Keys
use lodestar_server.Auth.Keys.Distinct.{==-eq-false_of_ne, device_bind-ne-device_bind_fail}
use lodestar_server.Auth.Limits.{write_device_bind_challenge}
use lodestar_server.Auth.Limits.Window.{elapsed}
use lodestar_server.MailCode.{World}
use lodestar_server.MailCode.Service.{bind_device_limit, count_attempt, settle_attempt}
use lodestar_server.MailCode.Verify.{fail_key, count_attempt_lem}
use mathlib.Core.Path.{subst}
use lodestar_server.MailCode.Attempts.{
  Attempt, Room, Event, count, settle, sign_in, rewrite, wait, cost, pick, settled_after, step, run,
}
use lodestar_server.MailCode.Attempts.Settle.{length-pick, settle-fail_key}

module _ (r : Redis) (sha256_hex : String → String) (app_id member_id : String) where
  open r use {Store, find, elapse, find-set, find-elapse}

  abbrev pub open_count : Room Store → ℕ
  open_count room = room.wrong + length room.pending

  -- What is known while `budget` more seconds may pass: the counter covers every attempt that was wrong
  -- or is under way, it outlives the budget, and no more than ten are covered.
  data Held (key : String) (budget : ℕ) (room : Room Store) : Type 0 where
    fresh :
        find key room.world.store ≡ none
        → open_count room ≡ 0
        → budget < 3600
        → Held key budget room
    covered :
        (n left : ℕ)
        → find key room.world.store ≡ entry (int n) (some left)
        → open_count room ≤ n
        → open_count room ≤ 10
        → budget < left
        → budget < 3600
        → Held key budget room

  module _ (email : String) where
    abbrev key : String
    key = fail_key r sha256_hex app_id email member_id

    abbrev counting : Store → ℕ × Store
    counting = count_attempt r sha256_hex app_id member_id

    count-store :
        (e code : String) (room : Room Store)
        → (step r sha256_hex app_id member_id (count e code) room).world.store
          ≡ (counting room.world.store).1
    unfolding step
    count-store e code room = elim (Bool-cases (ltb 10 (counting room.world.store).0)) [
      | inl over ↦ rw (step, over) refl
      | inr within ↦ rw (step, within) refl
    ]

    count-open :
        (e code : String) (room : Room Store) (n : ℕ)
        → (counting room.world.store).0 ≡ n
        → open_count (step r sha256_hex app_id member_id (count e code) room)
          ≡ (if ltb 10 n then open_count room else open_count room + 1)
    unfolding step
    count-open e code room n number = elim (Bool-cases (ltb 10 n)) [
      | inl over ↦ rw (step, number, over) refl
      | inr within ↦ rw (step, number, within) (omega arith)
    ]

    Held-count :
        (e code : String) (budget : ℕ) (room : Room Store)
        → Held key budget room
        → Held key budget (step r sha256_hex app_id member_id (count e code) room)
    Held-count e code budget room (fresh absent none_open short) =
        let (number, after) =
          count_attempt_lem r sha256_hex app_id email member_id room.world.store 0
            (ap count_of absent) in
        let opened = count-open e code room 1 number in
        covered 1 3600 (ap (find key) (count-store e code room) ∙ after) (ground (arith, opened))
          (ground (arith, opened)) short short
    Held-count e code budget room (covered n left at low ten runs short) =
        let (number, after) =
          count_attempt_lem r sha256_hex app_id email member_id room.world.store n
            (ap count_of at) in
        let opened = count-open e code room (n + 1) number in
        covered (n + 1) (if eqb n 0 then 3600 else left)
          (ap (find key) (count-store e code room) ∙ after ∙ rw at (ground arith))
          (ground (arith, opened)) (ground (arith, opened)) (ground arith) short

    abbrev settling : Attempt → ℕ → World Store → Bool × World Store
    settling a now w =
        settle_attempt r sha256_hex app_id a.email member_id bind_device_limit a.code a.attempts now
          w

    Held-settled :
        (a : Attempt) (rest : List Attempt) (now budget : ℕ) (room : Room Store)
        → length room.pending ≡ length rest + 1
        → Held key budget room
        → Held key budget (
            settled_after r sha256_hex app_id member_id (settling a now room.world) rest room.wrong)
    Held-settled a rest now budget room one_less (fresh absent none_open short) =
        absurd (omega (arith, one_less, none_open))
    Held-settled a rest now budget room one_less (covered n left at low ten runs short) =
        let back : n ≡ (n - 1) + 1 = omega arith in
        elim (settle-fail_key r sha256_hex app_id member_id a.email a.code a.attempts now (n - 1)
          (some left) room.world (at ∙ ap (λ m. entry (int m) (some left)) back)) [
            | inl (right, at') ↦
                covered (n - 1) left at' (ground (arith, right)) (ground (arith, right)) runs short
            | inr (wrong, at') ↦
                covered n left (at' ∙ ap (λ m. entry (int m) (some left)) (sym back))
                  (ground (arith, wrong)) (ground (arith, wrong)) runs short
          ]

    Held-settle :
        (i now budget : ℕ) (room : Room Store)
        → Held key budget room
        → Held key budget (step r sha256_hex app_id member_id (settle i now) room)
    unfolding step
    Held-settle i now budget room held = elim (Option-cases (pick i room.pending)) [
      | inl absent ↦ rw (step, absent) held
      | inr ((a, rest), found) ↦
          rw (step, found)
            (Held-settled a rest now budget room (length-pick i room.pending a rest found) held)
    ]

    Held-wait :
        (n budget : ℕ) (room : Room Store)
        → Held key (n + budget) room
        → Held key budget (step r sha256_hex app_id member_id (wait n) room)
    unfolding step
    Held-wait n budget room (fresh absent none_open short) =
        fresh (find-elapse key n room.world.store ∙ ap (aged n) absent) none_open (omega arith)
    Held-wait n budget room (covered m left at low ten runs short) =
        covered m (left - n) (find-elapse key n room.world.store ∙ ap (aged n) at ∙ ground arith)
          low ten (omega arith) (omega arith)

    Held-store :
        (budget : ℕ) (room room' : Room Store)
        → find key room'.world.store ≡ find key room.world.store
        → open_count room' ≡ open_count room
        → Held key budget room
        → Held key budget room'
    Held-store budget room room' same kept (fresh absent none_open short) =
        fresh (same ∙ absent) (kept ∙ none_open) short
    Held-store budget room room' same kept (covered n left at low ten runs short) =
        covered n left (same ∙ at) (omega (arith, kept)) (omega (arith, kept)) runs short

    Held-free : (budget : ℕ) (room : Room Store) → Held key (0 + budget) room → Held key budget room
    Held-free budget room held = subst (λ b. Held key b room) (omega arith) held

    Held-step :
        (e : Event) (budget : ℕ) (room : Room Store)
        → Held key (cost e + budget) room
        → Held key budget (step r sha256_hex app_id member_id e room)
    unfolding step write_device_bind_challenge
    Held-step (count e code) budget room held =
        Held-count e code budget room (Held-free budget room held)
    Held-step (settle i now) budget room held =
        Held-settle i now budget room (Held-free budget room held)
    Held-step (sign_in e id) budget room held =
        Held-store budget room _
          (find-set key (Keys.device_bind sha256_hex app_id e) _ _ room.world.store
            ∙ rw
                (==-eq-false_of_ne _ _
                  (device_bind-ne-device_bind_fail sha256_hex app_id app_id e member_id))
                refl)
          refl (Held-free budget room held)
    Held-step (rewrite codes devices) budget room held =
        Held-store budget room _ refl refl (Held-free budget room held)
    Held-step (wait n) budget room held = Held-wait n budget room held

    open-le_ten : (budget : ℕ) (room : Room Store) → Held key budget room → open_count room ≤ 10
    open-le_ten budget room (fresh absent none_open short) = omega (arith, none_open)
    open-le_ten budget room (covered n left at low ten runs short) = ten

    open_run-le_ten :
        (es : List Event) (room : Room Store)
        → Held key (elapsed cost es) room
        → open_count (run r sha256_hex app_id member_id es room) ≤ 10
    unfolding run
    open_run-le_ten [] room held = open-le_ten 0 room held
    open_run-le_ten (e ∷ es) room held =
        open_run-le_ten es (step r sha256_hex app_id member_id e room)
          (Held-step e (elapsed cost es) room held)

    -- However the requests of a member interleave, with any addresses and codes, sign-ins and changes of
    -- the tables, from no counter on at most ten wrong codes are compared within less than an hour, those
    -- under way included.
    pub wrong-le_ten :
        (es : List Event) (w : World Store)
        → find key w.store ≡ none
        → elapsed cost es < 3600
        → (run r sha256_hex app_id member_id es
              (record { world = w; pending = []; wrong = 0 })).wrong
            + length
                (run r sha256_hex app_id member_id es
                  (record { world = w; pending = []; wrong = 0 })).pending
          ≤ 10
    wrong-le_ten es w absent short = open_run-le_ten es _ (fresh absent refl short)
