-- ===== src/Invoices/Issue.antt =====
-- Issuing invoices: src/invoice/invoice.service.ts, and the runner of src/runner/invoice.runner.ts. What the
-- invoice service answers is a parameter, none where the client throws; the request that it is asked with is
-- that of Invoices.Request, or one of the payment's own, and has no part here.
use lodestar_server.Prelude.{
  ℕ, String, Bool, true, false, ◌||◌, Option, none, some, List, [], ◌∷◌, ◌++◌, ◌==◌, ◌&&◌, not, any,
  map, if◌then◌else◌,
}
use lodestar_server.Apps.Info.{is_filled_text}
use lodestar_server.Invoices.Payments.{
  PaymentLog, OrderLog, InvoiceRow, Books, Update, Gateway, get_should_issue, update_by_payment_no,
  update_by_order_id, check_invoice_gateway_config,
}

-- What the code reads of an answer; the details are the members that it keeps.
pub record Response : Type 0 where
  pub status : String
  pub invoice_number : Option String
  pub details : List (String × String)

abbrev pub is_success : Response → Bool
is_success a = a.status == "SUCCESS"

abbrev pub answer_update : ℕ → Response → Update
answer_update now a = record {
  status = a.status;
  details = a.details;
  issued_at = if is_success a then some now else none;
}

abbrev pub fail_update : Update
fail_update = record { status = "LODESTAR_FAIL"; details = []; issued_at = none }

-- What a part of a transaction does: it ends, it throws, each with the tables as the transaction sees them; or
-- a statement fails in the database, and then every later statement of the transaction fails and its commit
-- rolls it back.
pub data Step : Type 0 where
  done : Books → Step
  threw : Books → Step
  aborted : Step

abbrev has_number : String → InvoiceRow → Bool
has_number number i = i.no == number

-- invoiceInfra.save: the number is the primary key, and the order is unique among the invoices. None where
-- another invoice has the order.
unfoldable pub insert_invoice : String → String → Books → Option Books
insert_invoice order_id number b =
    if any (λ i. (i.order_id == order_id) && not (i.no == number)) b.invoices
    then none
    else some (record b {
      invoices =
          if any (has_number number) b.invoices
          then map (λ i. if has_number number i then record i { order_id = order_id } else i)
              b.invoices
          else b.invoices ++ (record { order_id = order_id; no = number } ∷ []);
    })

abbrev pub of_insert : Option Books → Step
of_insert none = aborted
of_insert (some b) = done b

-- The catch of issueInvoiceByPayment; the update itself can throw.
abbrev pub fail_payment : String → Books → Books
fail_payment payment_no b = elim (update_by_payment_no fail_update payment_no b) [
  | none ↦ b
  | some r ↦ r.1
]

-- `if (orderId && invoiceNumber)`
abbrev pub insert_filled : String → Option String → Books → Step
insert_filled order_id none b = done b
insert_filled order_id (some number) b =
    if is_filled_text (some number) then of_insert (insert_invoice order_id number b) else done b

-- After an answer of success: `orderLogs[0].id` throws without an order.
abbrev pub book_invoice : String → Response → List OrderLog → Books → Step
book_invoice payment_no a [] b = threw (fail_payment payment_no b)
book_invoice payment_no a (o ∷ os) b = insert_filled o.id a.invoice_number b

-- InvoiceService.issueInvoiceByPayment in a transaction that is not aborted; where the insertion aborts it, the
-- update of the catch fails too.
unfoldable pub issue_by_payment : Option Response → ℕ → String → Books → Step
unfolding update_by_payment_no insert_invoice
issue_by_payment none now payment_no b = threw (fail_payment payment_no b)
issue_by_payment (some a) now payment_no b =
    elim (update_by_payment_no (answer_update now a) payment_no b) [
      | none ↦ threw (fail_payment payment_no b)
      | some r ↦ if is_success a then book_invoice payment_no a r.0 r.1 else done r.1
    ]

abbrev update_either : Update → Option String → String → Books → Option Books
update_either u none order_id b = update_by_order_id u order_id b
update_either u (some payment_no) order_id b = elim (update_by_payment_no u payment_no b) [
  | none ↦ none
  | some r ↦ some r.1
]

-- The catch of _issueInvoiceDirectly.
abbrev fail_directly : Option String → Books → Books
fail_directly none b = b
fail_directly (some payment_no) b = fail_payment payment_no b

-- After an answer of success: a number that is undefined cannot be inserted.
abbrev pub book_directly : Option String → String → Books → Step
book_directly none order_id b = aborted
book_directly (some number) order_id b = of_insert (insert_invoice order_id number b)

-- InvoiceService._issueInvoiceDirectly
unfoldable pub attempt_directly : Option Response → ℕ → Option String → String → Books → Step
unfolding update_by_payment_no update_by_order_id insert_invoice
attempt_directly none now payment_no order_id b = threw (fail_directly payment_no b)
attempt_directly (some a) now payment_no order_id b =
    elim (update_either (answer_update now a) payment_no order_id b) [
      | none ↦ threw (fail_directly payment_no b)
      | some c ↦ if is_success a then book_directly a.invoice_number order_id c else done c
    ]

-- EntityManager.transaction: an error that its callback throws takes back what it has written.
abbrev pub in_transaction : Books → Step → Bool × Books
in_transaction b (done c) = (false, c)
in_transaction b (threw c) = (true, b)
in_transaction b aborted = (true, b)

-- InvoiceService.issueInvoiceDirectly: whether it throws, with the tables after it.
unfoldable pub issue_directly : Option Response → ℕ → Option String → String → Books → Bool × Books
unfolding attempt_directly
issue_directly answer now payment_no order_id b =
    in_transaction b (attempt_directly answer now payment_no order_id b)

-- One run of the runner: the time, the batch size, and the answers to a payment and to each request of its
-- invoices.
pub record Run : Type 0 where
  pub now : ℕ
  pub limit : ℕ
  pub answer : String → Option Response
  pub answer_invoice : String → String → Option Response

-- The transaction of a run: the tables without what it has written, and those that it sees, none once it is
-- aborted.
pub record Transaction : Type 0 where
  pub committed : Books
  pub books : Option Books

abbrev pub after_step : Transaction → Step → Bool × Transaction
after_step t (done b) = (false, record t { books = some b })
after_step t (threw b) = (true, record t { books = some b })
after_step t aborted = (true, record t { books = none })

abbrev pub map_books : (Books → Books) → Option Books → Option Books
map_books f none = none
map_books f (some b) = some (f b)

-- The commit, which rolls an aborted transaction back.
abbrev pub commit : Transaction → Books
commit t = elim t.books [ none ↦ t.committed | some b ↦ b ]

module _ (gateways : List Gateway) (modules_of : String → List String) where
  -- Without its settings the call throws before the client is asked.
  abbrev pub answer_of : String → PaymentLog → Option Response → Option Response
  answer_of app_id p a =
      if check_invoice_gateway_config gateways modules_of app_id p.invoice_gateway_id
      then a
      else none

  -- A request of the payment's own has a transaction of its own, which is committed at once.
  abbrev pub issue_one : Run → PaymentLog → String → Transaction → Bool × Transaction
  issue_one run p invoice t =
      let issue =
        issue_directly (answer_of p.order_app_id p (run.answer_invoice p.no invoice)) run.now
          (some p.no) p.order_id in
      let after = issue t.committed in
      (
        after.0,
        record {
          committed = after.1;
          books = if after.0 then t.books else map_books (λ b. (issue b).1) t.books;
        },
      )

  abbrev pub issue_each : Run → PaymentLog → List String → Transaction → Bool × Transaction
  issue_each run p [] t = (false, t)
  issue_each run p (invoice ∷ invoices) t =
      let first = issue_one run p invoice t in
      let rest = issue_each run p invoices first.1 in (first.0 || rest.0, rest.1)

  -- Without requests of its own the payment is issued in the run's transaction; in one that is aborted the
  -- first query throws.
  abbrev pub issue_plain : Run → PaymentLog → Transaction → Option Books → Bool × Transaction
  issue_plain run p t none = (true, record t { books = none })
  issue_plain run p t (some b) =
      after_step t (issue_by_payment (answer_of p.member_app_id p (run.answer p.no)) run.now p.no b)

  -- One round of the loop in InvoiceRunner.execute.
  unfoldable pub issue_log : Run → PaymentLog → Transaction → Bool × Transaction
  unfolding issue_by_payment issue_directly check_invoice_gateway_config
  issue_log run p t = elim p.invoices [
    | [] ↦ issue_plain run p t t.books
    | invoice ∷ invoices ↦ issue_each run p (invoice ∷ invoices) t
  ]

  abbrev pub issue_logs : Run → List PaymentLog → Transaction → Bool × Transaction
  issue_logs run [] t = (false, t)
  issue_logs run (p ∷ ps) t =
      let first = issue_log run p t in
      let rest = issue_logs run ps first.1 in (first.0 || rest.0, rest.1)

  -- The callback of InvoiceRunner.execute, from tables whose transaction begins.
  abbrev pub in_run : Run → Books → Bool × Transaction
  in_run run b =
      issue_logs run (get_should_issue run.limit run.now b.payments)
        (record { committed = b; books = some b })

  -- InvoiceRunner.execute: whether it throws, with the tables after it.
  unfoldable pub execute : Run → Books → Bool × Books
  unfolding issue_log get_should_issue
  execute run b = let (failed, t) = in_run run b in (failed, commit t)
