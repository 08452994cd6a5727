-- ===== src/Invoices/Unanswered.antt =====
-- What requests that are not answered leave behind: issueInvoiceDirectly of src/invoice/invoice.service.ts in
-- the loop of src/runner/invoice.runner.ts.
use mathlib.Core.Path.{subst}
use lodestar_server.Prelude.{
  String, ◌≡◌, ◌≢◌, ◌∙◌, refl, sym, ap, none, some, List, [], ◌∷◌, ◌==◌, All, Bool-cases, inl, inr,
  eq_iff,
}
use lodestar_server.Invoices.Payments.{
  PaymentLog, Books, Gateway, Update, get_one_by_no, get_should_issue, mark_payments, is_due,
}
use lodestar_server.Invoices.Allowance.{get-mark_other}
use lodestar_server.Invoices.Issue.{
  Run, Transaction, issue_directly, attempt_directly, answer_of, issue_each, issue_log, issue_logs,
  in_run, execute,
}
use lodestar_server.Invoices.Rounds.{Throughout, StaysFor, issue_log-stays, commit-Throughout}
use lodestar_server.Invoices.Batch.{take-All, select-All, ne_of}

-- The rows of the payment's number are the payment as it is, and there is one.
abbrev IsRow : PaymentLog → List PaymentLog → Type 0
IsRow p ps = All (λ q. q.no ≡ p.no → q ≡ p) ps × (get_one_by_no p.no ps ≡ some p)

mark-All :
    (p : PaymentLog) (other : String) (u : Update) (ps : List PaymentLog)
    → other ≢ p.no
    → All (λ q. q.no ≡ p.no → q ≡ p) ps
    → All (λ q. q.no ≡ p.no → q ≡ p) (mark_payments (λ q. q.no == other) u ps)
mark-All p other u [] ne h = tt
mark-All p other u (q ∷ ps) ne h = elim (Bool-cases (q.no == other)) [
  | inl own ↦
      rw own (λ e. absurd (ne (sym ((eq_iff q.no other).0 own) ∙ e)), mark-All p other u ps ne h.1)
  | inr differs ↦ rw differs (h.0, mark-All p other u ps ne h.1)
]

IsRow-StaysFor : (p : PaymentLog) (other : String) → other ≢ p.no → StaysFor (IsRow p) other
IsRow-StaysFor p other ne u ps h =
    (mark-All p other u ps ne h.0, get-mark_other other p.no u ps ne ∙ h.1)

module _ (gateways : List Gateway) (modules_of : String → List String) where
  -- The app has no settings for invoices, or the client throws.
  abbrev IsUnanswered : PaymentLog → Run → Type 0
  IsUnanswered p run =
      All
        (λ invoice.
          answer_of gateways modules_of p.order_app_id p (run.answer_invoice p.no invoice) ≡ none)
        p.invoices

  issue_each-unanswered :
      (run : Run) (p : PaymentLog) (invoices : List String) (t : Transaction)
      → All
          (λ invoice.
            answer_of gateways modules_of p.order_app_id p (run.answer_invoice p.no invoice) ≡ none)
          invoices
      → (issue_each gateways modules_of run p invoices t).1 ≡ t
  unfolding issue_directly attempt_directly
  issue_each-unanswered run p [] t h = refl
  issue_each-unanswered run p (invoice ∷ invoices) t h =
      rw (issue_each, h.0) (issue_each-unanswered run p invoices t h.1)

  issue_log-unanswered :
      (run : Run) (p : PaymentLog) (invoice : String) (invoices : List String) (t : Transaction)
      → p.invoices ≡ invoice ∷ invoices
      → IsUnanswered p run
      → (issue_log gateways modules_of run p t).1 ≡ t
  unfolding issue_log
  issue_log-unanswered run p invoice invoices t requests h =
      rw (issue_log, requests)
        (issue_each-unanswered run p (invoice ∷ invoices) t (
          subst
            (All (λ i.
              answer_of gateways modules_of p.order_app_id p (run.answer_invoice p.no i) ≡ none))
            requests h))

  module _ (p : PaymentLog) (invoice : String) (invoices : List String)
      (requests : p.invoices ≡ invoice ∷ invoices) where
    issue_logs-unanswered :
        (run : Run) (qs : List PaymentLog) (t : Transaction)
        → IsUnanswered p run
        → All (λ q. q.no ≡ p.no → q ≡ p) qs
        → Throughout (IsRow p) (IsRow p) t
        → Throughout (IsRow p) (IsRow p) (issue_logs gateways modules_of run qs t).1
    issue_logs-unanswered run [] t silent same h = h
    issue_logs-unanswered run (q ∷ qs) t silent same h =
        issue_logs-unanswered run qs (issue_log gateways modules_of run q t).1 silent same.1
          (elim (Bool-cases (q.no == p.no)) [
            | inl own ↦
                let is : q ≡ p = same.0 ((eq_iff q.no p.no).0 own) in
                let unchanged : (issue_log gateways modules_of run q t).1 ≡ t =
                  ap (λ x. (issue_log gateways modules_of run x t).1) is
                  ∙ issue_log-unanswered run p invoice invoices t requests silent in
                subst (Throughout (IsRow p) (IsRow p)) (sym unchanged) h
            | inr other ↦
                let stays = IsRow-StaysFor p q.no (ne_of other) in
                issue_log-stays gateways modules_of run (IsRow p) (IsRow p) q stays stays t h
          ])

    execute-unanswered :
        (run : Run) (b : Books)
        → IsUnanswered p run
        → IsRow p b.payments
        → IsRow p (execute gateways modules_of run b).1.payments
    unfolding execute get_should_issue
    execute-unanswered run b silent h =
        commit-Throughout (IsRow p) (in_run gateways modules_of run b).1 (
          issue_logs-unanswered run (get_should_issue run.limit run.now b.payments)
            (record { committed = b; books = some b }) silent
            (take-All (λ q. q.no ≡ p.no → q ≡ p) run.limit _
              (select-All (λ q. q.no ≡ p.no → q ≡ p) (is_due run.now) b.payments h.0))
            (h, h))

  -- The tables after the runs, one after the other.
  abbrev pub after_runs : List Run → Books → Books
  after_runs [] b = b
  after_runs (run ∷ runs) b = after_runs runs (execute gateways modules_of run b).1

  -- However many runs there are, and whatever they do to other payments: a payment whose number is its own
  -- and that has requests of its own, none of which is answered in any of the runs, has the row that it had,
  -- with the same status and counter of attempts.
  pub after_runs-unanswered :
      (p : PaymentLog) (invoice : String) (invoices : List String) (runs : List Run) (b : Books)
      → p.invoices ≡ invoice ∷ invoices
      → All (IsUnanswered p) runs
      → IsRow p b.payments
      → get_one_by_no p.no (after_runs runs b).payments ≡ some p
  after_runs-unanswered p invoice invoices [] b requests silent h = h.1
  after_runs-unanswered p invoice invoices (run ∷ runs) b requests silent h =
      after_runs-unanswered p invoice invoices runs (execute gateways modules_of run b).1 requests
        silent.1 (execute-unanswered p invoice invoices requests run b silent.0 h)
