-- ===== src/Invoices/RolledBack.antt =====
-- What a run of src/runner/invoice.runner.ts leaves whose transaction is aborted.
use lodestar_server.Prelude.{
  String, ◌≡◌, ◌∙◌, refl, Bool, true, false, ◌||◌, Option, none, some, List, [], ◌∷◌, All, ◌⊎◌, inl,
  inr, Option-cases,
}
use lodestar_server.Invoices.Payments.{PaymentLog, Books, Gateway, get_should_issue}
use lodestar_server.Invoices.Issue.{
  Run, Step, done, threw, aborted, Transaction, after_step, issue_plain, issue_log, issue_logs,
  in_run, commit, execute,
}
use lodestar_server.Invoices.Rounds.{issue_plain-committed}
use lodestar_server.Invoices.Retries.{is_committed}

after_step-aborted :
    (t : Transaction) (s : Step) → (after_step t s).1.books ≡ none → (after_step t s).0 ≡ true
after_step-aborted t (done b) h = absurd (cc h)
after_step-aborted t (threw b) h = refl
after_step-aborted t aborted h = refl

or_true : (a : Bool) → (a || true) ≡ true
or_true true = refl
or_true false = refl

pair_of : {x y : Bool} {a b : Books} → x ≡ y → a ≡ b → Path (Bool × Books) (x, a) (y, b)
pair_of e f i = (e i, f i)

module _ (gateways : List Gateway) (modules_of : String → List String) (run : Run) where
  issue_plain-aborted :
      (p : PaymentLog) (t : Transaction) (o : Option Books)
      → (issue_plain gateways modules_of run p t o).1.books ≡ none
      → (issue_plain gateways modules_of run p t o).0 ≡ true
  issue_plain-aborted p t none h = refl
  issue_plain-aborted p t (some b) h = after_step-aborted t _ h

  issue_log-aborted :
      (p : PaymentLog) (t : Transaction)
      → p.invoices ≡ []
      → ((issue_log gateways modules_of run p t).1.committed ≡ t.committed)
        × ((issue_log gateways modules_of run p t).1.books ≡ none
            → (issue_log gateways modules_of run p t).0 ≡ true)
  unfolding issue_log
  issue_log-aborted p t plain =
      rw (issue_log, plain)
        (issue_plain-committed gateways modules_of run p t t.books, issue_plain-aborted p t t.books)

  -- Nothing is committed before the end, and what aborts the transaction is reported.
  issue_logs-aborted :
      (ps : List PaymentLog) (t : Transaction)
      → All (λ p. p.invoices ≡ []) ps
      → ((issue_logs gateways modules_of run ps t).1.committed ≡ t.committed)
        × ((issue_logs gateways modules_of run ps t).1.books ≡ none
            → (t.books ≡ none) ⊎ ((issue_logs gateways modules_of run ps t).0 ≡ true))
  issue_logs-aborted [] t plain = (refl, λ gone. inl gone)
  issue_logs-aborted (p ∷ ps) t plain =
      let first = issue_log gateways modules_of run p t in
      let (kept, reported) = issue_log-aborted p t plain.0 in
      let (kept', reported') = issue_logs-aborted ps first.1 plain.1 in
      (
        kept' ∙ kept,
        λ gone. elim (reported' gone) [
          | inl at_once ↦ inr (rw (reported at_once) refl)
          | inr later ↦ inr (rw later (or_true first.0))
        ],
      )

module _ (gateways : List Gateway) (modules_of : String → List String) where
  -- A run in whose batch no payment has requests of its own is committed, or it throws and leaves the tables
  -- exactly as they were: the counters of attempts of its whole batch included.
  pub execute-rolled_back :
      (run : Run) (b : Books)
      → All (λ p. p.invoices ≡ []) (get_should_issue run.limit run.now b.payments)
      → is_committed gateways modules_of run b ≡ false
      → execute gateways modules_of run b ≡ (true, b)
  unfolding execute get_should_issue
  execute-rolled_back run b plain lost =
      let batch = get_should_issue run.limit run.now b.payments in
      let (kept, reported) =
        issue_logs-aborted gateways modules_of run batch (record { committed = b; books = some b })
          plain in
      elim (Option-cases (in_run gateways modules_of run b).1.books) [
        | inr (c, seen) ↦ absurd (let f : Path Bool true false = rw seen at lost in cc f)
        | inl gone ↦ elim (reported gone) [
          | inl never ↦ absurd (cc never)
          | inr told ↦ pair_of told (rw (commit, gone) kept)
        ]
      ]
