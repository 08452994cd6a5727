-- ===== src/Invoices/Rounds.antt =====
-- What one round of the runner's loop in src/runner/invoice.runner.ts does to the payment that it is about,
-- and to the others, in the run's transaction and outside of it; and what a run leaves of them.
use mathlib.Core.Path.{subst}
use lodestar_server.Prelude.{
  sym, refl, ℕ, ◌-◌, ◌≤◌, String, ◌≡◌, Option, none, some, List, [], ◌∷◌, List-cases, Option-cases,
  inl, inr, if_both, ◌==◌,
}
use lodestar_server.Invoices.Payments.{PaymentLog, Books, Update, Gateway, mark_payments}
use lodestar_server.Invoices.Allowance.{left}
use lodestar_server.Invoices.Issue.{
  Run, Step, done, threw, aborted, Transaction, issue_by_payment, issue_directly, answer_of,
  after_step, map_books, issue_one, issue_each, issue_plain, issue_log,
}
use lodestar_server.Invoices.Steps.{
  After, Within, lowered, issue_by_payment-Spends, issue_by_payment-stays, issue_directly-stays,
}
use lodestar_server.Invoices.Issue.{issue_logs, commit}
use lodestar_server.Prelude.{All}

-- P of the tables that a rolled-back run leaves, and Q of those that the run sees.
abbrev pub Throughout :
    (List PaymentLog → Type 0) → (List PaymentLog → Type 0) → Transaction → Type 0
Throughout P Q t = P t.committed.payments × Within (λ b. Q b.payments) t.books

-- The updates of the payments of one number leave what the predicate says.
abbrev pub StaysFor : (List PaymentLog → Type 0) → String → Type 0
StaysFor P payment_no =
    (u : Update) (ps : List PaymentLog) → P ps → P (mark_payments (λ q. q.no == payment_no) u ps)

map_books-stays :
    (Q : Books → Type 0) (f : Books → Books)
    → ((b : Books) → Q b → Q (f b))
    → (o : Option Books) → Within Q o
    → Within Q (map_books f o)
map_books-stays Q f stays none h = tt
map_books-stays Q f stays (some b) h = stays b h

module _ (gateways : List Gateway) (modules_of : String → List String) (run : Run) where
  issue_each-stays :
      (P Q : List PaymentLog → Type 0) (p : PaymentLog)
      → StaysFor P p.no
      → StaysFor Q p.no
      → (invoices : List String) (t : Transaction) → Throughout P Q t
      → Throughout P Q (issue_each gateways modules_of run p invoices t).1
  issue_each-stays P Q p stays stays' [] t h = h
  issue_each-stays P Q p stays stays' (invoice ∷ invoices) t h =
      let answer =
        answer_of gateways modules_of p.order_app_id p (run.answer_invoice p.no invoice) in
      let issue = issue_directly answer run.now (some p.no) p.order_id in
      let kept = issue_directly-stays P p.no stays answer run.now p.order_id in
      let kept' = issue_directly-stays Q p.no stays' answer run.now p.order_id in
      issue_each-stays P Q p stays stays' invoices (issue_one gateways modules_of run p invoice t).1
        (
          kept t.committed h.0,
          if_both (Within (λ b. Q b.payments)) (issue t.committed).0 t.books
              (map_books (λ b. (issue b).1) t.books) h.1
              (map_books-stays (λ b. Q b.payments) (λ b. (issue b).1) kept' t.books h.1),
        )

  after_step-Within :
      (Q : Books → Type 0) (t : Transaction) (s : Step)
      → After Q s
      → Within Q (after_step t s).1.books
  after_step-Within Q t (done b) h = h
  after_step-Within Q t (threw b) h = h
  after_step-Within Q t aborted h = tt

  after_step-committed : (t : Transaction) (s : Step) → (after_step t s).1.committed ≡ t.committed
  after_step-committed t (done b) = refl
  after_step-committed t (threw b) = refl
  after_step-committed t aborted = refl

  issue_plain-Within :
      (Q R : Books → Type 0) (p : PaymentLog) (t : Transaction) (o : Option Books)
      → ((b : Books)
          → Q b
          → After R (
              issue_by_payment
                (answer_of gateways modules_of p.member_app_id p (run.answer p.no))
                run.now
                p.no
                b))
      → Within Q o
      → Within R (issue_plain gateways modules_of run p t o).1.books
  issue_plain-Within Q R p t none issues h = tt
  issue_plain-Within Q R p t (some b) issues h = after_step-Within R t _ (issues b h)

  pub issue_plain-committed :
      (p : PaymentLog) (t : Transaction) (o : Option Books)
      → (issue_plain gateways modules_of run p t o).1.committed ≡ t.committed
  issue_plain-committed p t none = refl
  issue_plain-committed p t (some b) = after_step-committed t _

  pub issue_log-stays :
      (P Q : List PaymentLog → Type 0) (p : PaymentLog)
      → StaysFor P p.no
      → StaysFor Q p.no
      → (t : Transaction) → Throughout P Q t
      → Throughout P Q (issue_log gateways modules_of run p t).1
  unfolding issue_log
  issue_log-stays P Q p stays stays' t h = elim (List-cases p.invoices) [
    | inl empty ↦
        rw (issue_log, empty)
          (
            subst (λ b. P b.payments) (sym (issue_plain-committed p t t.books)) h.0,
            issue_plain-Within (λ b. Q b.payments) (λ b. Q b.payments) p t t.books
                (issue_by_payment-stays Q p.no stays'
                  (answer_of gateways modules_of p.member_app_id p (run.answer p.no)) run.now)
                h.1,
          )
    | inr (i, is, given) ↦ rw (issue_log, given) (issue_each-stays P Q p stays stays' (i ∷ is) t h)
  ]

  -- The payment of a round has one attempt less where the transaction goes on, and what a rollback would
  -- leave is as before.
  pub issue_log-Spends :
      (p : PaymentLog) (t : Transaction) (n : ℕ)
      → p.invoices ≡ []
      → Within (λ b. left p.no b ≤ n) t.books
      → ((issue_log gateways modules_of run p t).1.committed ≡ t.committed)
        × Within (λ b. left p.no b ≤ n - 1) (issue_log gateways modules_of run p t).1.books
  unfolding issue_log
  issue_log-Spends p t n empty h =
      rw (issue_log, empty)
        (
          issue_plain-committed p t t.books,
          issue_plain-Within (λ b. left p.no b ≤ n) (λ b. left p.no b ≤ n - 1) p t t.books
              (λ b fits.
                lowered (λ c. left p.no c) (left p.no b) n _ fits
                  (issue_by_payment-Spends
                    (answer_of gateways modules_of p.member_app_id p (run.answer p.no)) run.now p.no
                    b))
              h,
        )

module _ (gateways : List Gateway) (modules_of : String → List String) where
  pub issue_logs-stays :
      (run : Run) (P : List PaymentLog → Type 0) (qs : List PaymentLog)
      → All (λ q. StaysFor P q.no) qs
      → (t : Transaction) → Throughout P P t
      → Throughout P P (issue_logs gateways modules_of run qs t).1
  issue_logs-stays run P [] stays t h = h
  issue_logs-stays run P (q ∷ qs) stays t h =
      issue_logs-stays run P qs stays.1 (issue_log gateways modules_of run q t).1
        (issue_log-stays gateways modules_of run P P q stays.0 stays.0 t h)

pub commit-Throughout :
    (P : List PaymentLog → Type 0) (t : Transaction) → Throughout P P t → P (commit t).payments
commit-Throughout P t h = elim (Option-cases t.books) [
  | inl gone ↦ rw (commit, gone) h.0
  | inr (b, seen) ↦ rw (commit, seen) (subst (Within (λ b. P b.payments)) seen h.1)
]
