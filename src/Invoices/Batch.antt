-- ===== src/Invoices/Batch.antt =====
-- The batch that a run of src/runner/invoice.runner.ts selects: how often it holds one payment.
use lodestar_server.Prelude.{
  ℕ, zero, suc, ◌+◌, ◌≤◌, String, ◌≡◌, ◌≢◌, refl, Bool, true, false, List, [], ◌∷◌, select, take,
  ◌==◌, eq_iff, arith, Bool-cases, inl, inr, All, if_both, if◌then◌else◌,
}
use lodestar_server.Invoices.Payments.{PaymentLog, Update, is_due, get_one_by_no, mark_payments}
use lodestar_server.Invoices.Allowance.{allowance_of, is_due-allowance}

-- How many of the payments have the number.
abbrev pub count_no : String → List PaymentLog → ℕ
count_no payment_no [] = 0
count_no payment_no (p ∷ ps) = (if p.no == payment_no then 1 else 0) + count_no payment_no ps

-- The payments of the number are issued by the payment, without requests of their own.
abbrev pub IsPlain : String → List PaymentLog → Type 0
IsPlain payment_no ps = All (λ p. p.no ≡ payment_no → p.invoices ≡ []) ps

pub count-take :
    (payment_no : String) (n : ℕ) (ps : List PaymentLog)
    → count_no payment_no (take n ps) ≤ count_no payment_no ps
count-take payment_no zero ps = omega arith
count-take payment_no (suc n) [] = omega arith
count-take payment_no (suc n) (p ∷ ps) = omega (arith, count-take payment_no n ps)

count-select :
    (payment_no : String) (f : PaymentLog → Bool) (ps : List PaymentLog)
    → count_no payment_no (select f ps) ≤ count_no payment_no ps
count-select payment_no f [] = omega arith
count-select payment_no f (p ∷ ps) = ground (arith, count-select payment_no f ps)

-- A payment that is selected has an attempt left.
pub count-due :
    (payment_no : String) (now : ℕ) (ps : List PaymentLog)
    → count_no payment_no ps ≤ 1
    → count_no payment_no (select (is_due now) ps) ≤ allowance_of (get_one_by_no payment_no ps)
unfolding get_one_by_no
count-due payment_no now [] unique = omega arith
count-due payment_no now (p ∷ ps) unique =
    let fewer = count-select payment_no (is_due now) ps in
    elim (Bool-cases (p.no == payment_no)) [
      | inr other ↦ rw other (
          if_both (λ qs. count_no payment_no qs ≤ allowance_of (get_one_by_no payment_no ps))
            (is_due now p) (p ∷ select (is_due now) ps) (select (is_due now) ps)
            (rw other (omega (arith, count-due payment_no now ps (omega (arith, unique)))))
            (count-due payment_no now ps (omega (arith, unique))))
      | inl own ↦
          let single : 1 + count_no payment_no ps ≤ 1 = rw own at unique in
          rw own (elim (Bool-cases (is_due now p)) [
            | inl due ↦ rw (due, own) (omega (arith, single, fewer, is_due-allowance now p due))
            | inr later ↦ rw later (omega (arith, single, fewer))
          ])
    ]

pub ne_of : {a b : String} → (a == b) ≡ false → a ≢ b
ne_of {a} {b} f e = let t : Path Bool (a == b) true = (eq_iff a b).1 e in absurd (cc (t, f))

pub take-All :
    (P : PaymentLog → Type 0) (n : ℕ) (ps : List PaymentLog) → All P ps → All P (take n ps)
take-All P zero ps h = tt
take-All P (suc n) [] h = tt
take-All P (suc n) (p ∷ ps) h = (h.0, take-All P n ps h.1)

pub select-All :
    (P : PaymentLog → Type 0) (f : PaymentLog → Bool) (ps : List PaymentLog)
    → All P ps
    → All P (select f ps)
select-All P f [] h = tt
select-All P f (p ∷ ps) h =
    if_both (All P) (f p) (p ∷ select f ps) (select f ps) (h.0, select-All P f ps h.1)
      (select-All P f ps h.1)

pub count-mark_payments :
    (payment_no : String) (chosen : PaymentLog → Bool) (u : Update) (ps : List PaymentLog)
    → count_no payment_no (mark_payments chosen u ps) ≡ count_no payment_no ps
count-mark_payments payment_no chosen u [] = refl
count-mark_payments payment_no chosen u (p ∷ ps) =
    let rest = count-mark_payments payment_no chosen u ps in
    elim (Bool-cases (chosen p)) [
      | inl t ↦ rw t (omega (arith, rest))
      | inr f ↦ rw f (omega (arith, rest))
    ]

pub mark_payments-IsPlain :
    (payment_no : String) (chosen : PaymentLog → Bool) (u : Update) (ps : List PaymentLog)
    → IsPlain payment_no ps
    → IsPlain payment_no (mark_payments chosen u ps)
mark_payments-IsPlain payment_no chosen u [] h = tt
mark_payments-IsPlain payment_no chosen u (p ∷ ps) h =
    let rest = mark_payments-IsPlain payment_no chosen u ps h.1 in
    elim (Bool-cases (chosen p)) [ inl t ↦ rw t (h.0, rest) | inr f ↦ rw f (h.0, rest) ]
