-- ===== src/Invoices/Allowance.antt =====
-- How many more attempts the conditions of src/payment/payment.infra.ts leave a payment, and what the
-- updates of src/invoice/invoice.service.ts take from it.
use lodestar_server.Prelude.{
  ℕ, ◌-◌, ◌≤◌, ◌<◌, String, ◌≡◌, ◌≢◌, ◌⊎◌, refl, ap, Bool, true, false, Option, none, some, List,
  [], ◌∷◌, select, ◌==◌, eq_iff, arith, if◌then◌else◌, Bool-cases, Option-cases, inl, inr,
}
use lodestar_server.Invoices.Payments.{
  PaymentLog, Books, Update, is_due, mark_payment, mark_payments, mark_orders, has_payment,
  OrderLog, get_one_by_no, update_by_payment_no,
}

abbrev pub tried : Option ℕ → ℕ
tried none = 0
tried (some n) = n

abbrev pub allowance : PaymentLog → ℕ
allowance p = elim p.invoice_issued_at [
  | some at ↦ 0
  | none ↦ elim p.invoice.status [ none ↦ 5 | some s ↦ 5 - tried p.invoice.retry ]
]

abbrev pub allowance_of : Option PaymentLog → ℕ
allowance_of none = 0
allowance_of (some p) = allowance p

-- The allowance of a payment in the tables.
abbrev pub left : String → Books → ℕ
left payment_no b = allowance_of (get_one_by_no payment_no b.payments)

pub is_due-allowance : (now : ℕ) (p : PaymentLog) → is_due now p ≡ true → 0 < allowance p
is_due-allowance now p due = ground (arith, due)

mark_payment-allowance :
    (u : Update) (p : PaymentLog) → allowance (mark_payment u p) ≤ allowance p - 1
mark_payment-allowance u p = ground arith

abbrev find_own : Update → Option PaymentLog → Option PaymentLog
find_own u none = none
find_own u (some p) = some (mark_payment u p)

get-mark_own :
    (payment_no : String) (u : Update) (ps : List PaymentLog)
    → get_one_by_no payment_no (mark_payments (λ q. q.no == payment_no) u ps)
      ≡ find_own u (get_one_by_no payment_no ps)
unfolding get_one_by_no
get-mark_own payment_no u [] = refl
get-mark_own payment_no u (p ∷ ps) = elim (Bool-cases (p.no == payment_no)) [
  | inl t ↦ rw t (rw t refl)
  | inr f ↦ rw f (rw f (get-mark_own payment_no u ps))
]

pub get-mark_other :
    (payment_no other : String) (u : Update) (ps : List PaymentLog)
    → payment_no ≢ other
    → get_one_by_no other (mark_payments (λ q. q.no == payment_no) u ps) ≡ get_one_by_no other ps
unfolding get_one_by_no
get-mark_other payment_no other u [] ne = refl
get-mark_other payment_no other u (p ∷ ps) ne = elim (Bool-cases (p.no == payment_no)) [
  | inl t ↦
      let different : Path Bool (p.no == other) false =
        ground (arith, ne, t, eq_iff p.no payment_no, eq_iff p.no other) in
      rw t (rw different (get-mark_other payment_no other u ps ne))
  | inr f ↦ rw f (
      ap (λ rest. if p.no == other then some p else rest) (get-mark_other payment_no other u ps ne))
]

-- What an update by a payment's number gives back where the payment is found.
abbrev pub updated : Update → String → Books → List OrderLog × Books
updated u payment_no b = (
  select (has_payment payment_no b.payments) b.orders,
  record b {
    payments = mark_payments (λ q. q.no == payment_no) u b.payments;
    orders = mark_orders (has_payment payment_no b.payments) u b.orders;
  },
)

pub update-cases :
    (u : Update) (payment_no : String) (b : Books)
    → ((update_by_payment_no u payment_no b ≡ none) × (left payment_no b ≡ 0))
      ⊎ (update_by_payment_no u payment_no b ≡ some (updated u payment_no b))
unfolding update_by_payment_no
update-cases u payment_no b = elim (Option-cases (get_one_by_no payment_no b.payments)) [
  | inl missing ↦ inl (rw (update_by_payment_no, missing) refl, ap allowance_of missing)
  | inr (p, found) ↦ inr (rw (update_by_payment_no, found) refl)
]

pub updated-left :
    (u : Update) (payment_no : String) (b : Books)
    → left payment_no (updated u payment_no b).1 ≤ left payment_no b - 1
updated-left u payment_no b =
    rw (get-mark_own payment_no u b.payments)
      (elim (Option-cases (get_one_by_no payment_no b.payments)) [
        | inl missing ↦ rw missing (omega arith)
        | inr (p, found) ↦ rw found (mark_payment-allowance u p)
      ])

pub allowance-le_five : (p : PaymentLog) → allowance p ≤ 5
allowance-le_five p = ground arith
