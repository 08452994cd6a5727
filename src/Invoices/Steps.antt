-- ===== src/Invoices/Steps.antt =====
-- What issuing one invoice, in the run's transaction or in one of its own (src/invoice/invoice.service.ts), does
-- to the payment that it is about, and to the others.
use lodestar_server.Prelude.{
  ℕ, ◌-◌, ◌≤◌, String, Option, none, some, List, [], ◌∷◌, arith, inl, inr, if_both, ◌==◌,
}
use lodestar_server.Apps.Info.{is_filled_text}
use lodestar_server.Invoices.Payments.{PaymentLog, OrderLog, Books, Update, mark_payments}
use lodestar_server.Invoices.Allowance.{left, updated, update-cases, updated-left}
use lodestar_server.Invoices.Issue.{
  Response, Step, done, threw, aborted, is_success, answer_update, fail_update, fail_payment,
  insert_invoice, of_insert, insert_filled, book_invoice, issue_by_payment, book_directly,
  attempt_directly, in_transaction, issue_directly,
}

-- What holds of the tables that a step leaves, and of those that a transaction sees.
abbrev pub After : (Books → Type 0) → Step → Type 0
After Q (done b) = Q b
After Q (threw b) = Q b
After Q aborted = Unit

abbrev pub Within : (Books → Type 0) → Option Books → Type 0
Within Q none = Unit
Within Q (some b) = Q b

-- The payment has one attempt less, if it had one.
abbrev Spends : String → Books → Books → Type 0
Spends payment_no b after = left payment_no after ≤ left payment_no b - 1

-- An insertion leaves the payments.
insert-After :
    (P : List PaymentLog → Type 0) (order_id number : String) (b : Books)
    → P b.payments
    → After (λ c. P c.payments) (of_insert (insert_invoice order_id number b))
unfolding insert_invoice
insert-After P order_id number b h =
    if_both (λ o. After (λ c. P c.payments) (of_insert o)) _ none (some _) tt h

insert_filled-After :
    (P : List PaymentLog → Type 0) (order_id : String) (number : Option String) (b : Books)
    → P b.payments
    → After (λ c. P c.payments) (insert_filled order_id number b)
insert_filled-After P order_id none b h = h
insert_filled-After P order_id (some number) b h =
    if_both (After (λ c. P c.payments)) (is_filled_text (some number))
      (of_insert (insert_invoice order_id number b)) (done b) (insert-After P order_id number b h) h

fail_payment-Spends :
    (payment_no : String) (b : Books) → Spends payment_no b (fail_payment payment_no b)
fail_payment-Spends payment_no b = elim (update-cases fail_update payment_no b) [
  | inl (failed, nothing) ↦ rw (fail_payment, failed) (omega (arith, nothing))
  | inr found ↦ rw (fail_payment, found) (updated-left fail_update payment_no b)
]

book_invoice-Spends :
    (payment_no : String) (a : Response) (os : List OrderLog) (b : Books) (n : ℕ)
    → left payment_no b ≤ n
    → After (λ c. left payment_no c ≤ n) (book_invoice payment_no a os b)
book_invoice-Spends payment_no a [] b n h = omega (arith, h, fail_payment-Spends payment_no b)
book_invoice-Spends payment_no a (o ∷ os) b n h =
    insert_filled-After
      (λ ps. left payment_no (record { payments = ps; orders = []; invoices = [] }) ≤ n) o.id
      a.invoice_number b h

pub issue_by_payment-Spends :
    (answer : Option Response) (now : ℕ) (payment_no : String) (b : Books)
    → After (Spends payment_no b) (issue_by_payment answer now payment_no b)
unfolding issue_by_payment
issue_by_payment-Spends none now payment_no b = fail_payment-Spends payment_no b
issue_by_payment-Spends (some a) now payment_no b =
    elim (update-cases (answer_update now a) payment_no b) [
      | inl (failed, nothing) ↦ rw (issue_by_payment, failed) (fail_payment-Spends payment_no b)
      | inr found ↦
          let marked = updated (answer_update now a) payment_no b in
          let spent = updated-left (answer_update now a) payment_no b in
          rw (issue_by_payment, found)
            (if_both (After (Spends payment_no b)) (is_success a)
              (book_invoice payment_no a marked.0 marked.1) (done marked.1)
              (book_invoice-Spends payment_no a marked.0 marked.1 (left payment_no b - 1) spent)
              spent)
    ]

-- What holds of the payments and stays when those of one number are updated stays after its round.
module _ (P : List PaymentLog → Type 0) (payment_no : String)
    (stays : (u : Update) (ps : List PaymentLog)
      → P ps
      → P (mark_payments (λ q. q.no == payment_no) u ps)) where
  abbrev Kept : Books → Type 0
  Kept b = P b.payments

  fail_payment-stays : (b : Books) → Kept b → Kept (fail_payment payment_no b)
  fail_payment-stays b h = elim (update-cases fail_update payment_no b) [
    | inl (failed, nothing) ↦ rw (fail_payment, failed) h
    | inr found ↦ rw (fail_payment, found) (stays fail_update b.payments h)
  ]

  book_invoice-stays :
      (a : Response) (os : List OrderLog) (b : Books)
      → Kept b
      → After Kept (book_invoice payment_no a os b)
  book_invoice-stays a [] b h = fail_payment-stays b h
  book_invoice-stays a (o ∷ os) b h = insert_filled-After P o.id a.invoice_number b h

  pub issue_by_payment-stays :
      (answer : Option Response) (now : ℕ) (b : Books)
      → Kept b
      → After Kept (issue_by_payment answer now payment_no b)
  unfolding issue_by_payment
  issue_by_payment-stays none now b h = fail_payment-stays b h
  issue_by_payment-stays (some a) now b h = elim (update-cases (answer_update now a) payment_no b) [
    | inl (failed, nothing) ↦ rw (issue_by_payment, failed) (fail_payment-stays b h)
    | inr found ↦
        let marked = updated (answer_update now a) payment_no b in
        let after = stays (answer_update now a) b.payments h in
        rw (issue_by_payment, found)
          (if_both (After Kept) (is_success a) (book_invoice payment_no a marked.0 marked.1)
            (done marked.1) (book_invoice-stays a marked.0 marked.1 after) after)
  ]

  book_directly-stays :
      (number : Option String) (order_id : String) (b : Books)
      → Kept b
      → After Kept (book_directly number order_id b)
  book_directly-stays none order_id b h = tt
  book_directly-stays (some number) order_id b h = insert-After P order_id number b h

  attempt_directly-stays :
      (answer : Option Response) (now : ℕ) (order_id : String) (b : Books)
      → Kept b
      → After Kept (attempt_directly answer now (some payment_no) order_id b)
  unfolding attempt_directly
  attempt_directly-stays none now order_id b h = fail_payment-stays b h
  attempt_directly-stays (some a) now order_id b h =
      elim (update-cases (answer_update now a) payment_no b) [
        | inl (failed, nothing) ↦ rw (attempt_directly, failed) (fail_payment-stays b h)
        | inr found ↦
            let marked = (updated (answer_update now a) payment_no b).1 in
            let after = stays (answer_update now a) b.payments h in
            rw (attempt_directly, found)
              (if_both (After Kept) (is_success a) (book_directly a.invoice_number order_id marked)
                (done marked) (book_directly-stays a.invoice_number order_id marked after) after)
      ]

  in_transaction-stays :
      (b : Books) (s : Step) → Kept b → After Kept s → Kept (in_transaction b s).1
  in_transaction-stays b (done c) h k = k
  in_transaction-stays b (threw c) h k = h
  in_transaction-stays b aborted h k = h

  pub issue_directly-stays :
      (answer : Option Response) (now : ℕ) (order_id : String) (b : Books)
      → Kept b
      → Kept (issue_directly answer now (some payment_no) order_id b).1
  unfolding issue_directly
  issue_directly-stays answer now order_id b h =
      in_transaction-stays b (attempt_directly answer now (some payment_no) order_id b) h
        (attempt_directly-stays answer now order_id b h)

pub lowered :
    (f : Books → ℕ) (m n : ℕ) (s : Step)
    → m ≤ n
    → After (λ b. f b ≤ m - 1) s
    → After (λ b. f b ≤ n - 1) s
lowered f m n (done b) h k = omega (arith, h, k)
lowered f m n (threw b) h k = omega (arith, h, k)
lowered f m n aborted h k = tt
