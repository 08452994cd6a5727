-- ===== src/Invoices/Retries.antt =====
-- How often the runner of src/runner/invoice.runner.ts tries to issue the invoice of one payment.
use lodestar_server.Prelude.{not, is_none, ℕ, ◌+◌, ◌≤◌, String, Bool, List, [], ◌∷◌, if◌then◌else◌}
use lodestar_server.Invoices.Payments.{PaymentLog, Books, Gateway, get_one_by_no, get_should_issue}
use lodestar_server.Invoices.Allowance.{allowance_of, left}
use lodestar_server.Invoices.Issue.{Run, Transaction, in_run, execute}
use lodestar_server.Invoices.Steps.{Within}
use lodestar_server.Invoices.Batch.{count_no}

abbrev AtMost : String → ℕ → List PaymentLog → Type 0
AtMost payment_no n ps = allowance_of (get_one_by_no payment_no ps) ≤ n

module _ (gateways : List Gateway) (modules_of : String → List String) where
  -- The allowance in the tables that a rollback leaves and in those that the run sees.
  abbrev LeftWithin : String → ℕ → ℕ → Transaction → Type 0
  LeftWithin payment_no m n t =
      (left payment_no t.committed ≤ m) × Within (λ b. left payment_no b ≤ n) t.books

module _ (gateways : List Gateway) (modules_of : String → List String) where
  -- The run is not rolled back.
  abbrev pub is_committed : Run → Books → Bool
  is_committed run b = not (is_none (in_run gateways modules_of run b).1.books)

  -- How often the runs, one after the other, have the payment in their batch, without those that are rolled
  -- back.
  abbrev pub tries : String → List Run → Books → ℕ
  tries payment_no [] b = 0
  tries payment_no (run ∷ runs) b =
      (if is_committed run b
        then count_no payment_no (get_should_issue run.limit run.now b.payments)
        else 0)
      + tries payment_no runs (execute gateways modules_of run b).1
