-- ===== src/Invoices/Payments.antt =====
-- Payments with the state of their invoices: which are due (src/payment/payment.infra.ts), and the updates
-- of src/invoice/invoice.service.ts. Times are in seconds.
use lodestar_server.Prelude.{
  ℕ, ◌+◌, ◌*◌, String, Bool, false, not, ◌&&◌, ◌||◌, Option, none, some, is_none, List, [], ◌∷◌,
  map, any, select, find_first, take, ◌==◌, ltb, if◌then◌else◌,
}
use lodestar_server.Redis.{with_fields}
use lodestar_server.Auth.Device.Service.{setting}
use lodestar_server.Apps.Info.{is_filled_text}

-- What the code reads of the JSON column invoice_options, and the rest of its members.
pub record IssueState : Type 0 where
  pub status : Option String
  pub retry : Option ℕ
  pub is_skipped : Bool
  pub details : List (String × String)

-- A payment with the apps of its order and of the order's member. `invoices` are the requests of
-- invoice_options.invoices.
pub record PaymentLog : Type 0 where
  pub no : String
  pub order_id : String
  pub order_app_id : String
  pub member_app_id : String
  pub status : Option String
  pub price : ℕ
  pub gateway : Option String
  pub paid_at : Option ℕ
  pub invoice_gateway_id : Option String
  pub invoice_issued_at : Option ℕ
  pub invoice : IssueState
  pub invoices : List String

pub record OrderLog : Type 0 where
  pub id : String
  pub invoice : IssueState
  pub invoice_issued_at : Option ℕ

pub record InvoiceRow : Type 0 where
  pub order_id : String
  pub no : String

pub record Books : Type 0 where
  pub payments : List PaymentLog
  pub orders : List OrderLog
  pub invoices : List InvoiceRow

abbrev is_text : String → Option String → Bool
is_text s none = false
is_text s (some t) = t == s

abbrev is_retry_below : ℕ → Option ℕ → Bool
is_retry_below n none = false
is_retry_below n (some retry) = ltb retry n

-- The condition on invoice_options: what is unknown in SQL is not selected.
abbrev is_unissued : IssueState → Bool
is_unissued i = elim i.status [
  | none ↦ not i.is_skipped
  | some s ↦ (not (s == "SUCCESS") && is_retry_below 5 i.retry) && not i.is_skipped
]

-- Paid before now and less than three days ago.
abbrev is_paid_lately : ℕ → Option ℕ → Bool
is_paid_lately now none = false
is_paid_lately now (some at) = ltb at now && ltb now (at + 3 * 24 * 60 * 60)

abbrev is_invoiced_gateway : Option String → Bool
is_invoiced_gateway none = false
is_invoiced_gateway (some g) = not ((g == "lodestar") || (g == "manual"))

abbrev pub is_due : ℕ → PaymentLog → Bool
is_due now p =
    is_unissued p.invoice
    && (is_none p.invoice_issued_at
        && (ltb 0 p.price
            && (is_text "SUCCESS" p.status
                && (is_paid_lately now p.paid_at && is_invoiced_gateway p.gateway))))

-- PaymentInfrastructure.getShouldIssueInvoicePaymentLogs
unfoldable pub get_should_issue : ℕ → ℕ → List PaymentLog → List PaymentLog
get_should_issue limit now payments = take limit (select (is_due now) payments)

-- PaymentInfrastructure.getOneByNo
unfoldable pub get_one_by_no : String → List PaymentLog → Option PaymentLog
get_one_by_no payment_no payments = find_first (λ p. p.no == payment_no) payments

-- The members that an update sets, and the time; one that is undefined leaves the column.
pub record Update : Type 0 where
  pub status : String
  pub details : List (String × String)
  pub issued_at : Option ℕ

abbrev next_retry : Option ℕ → ℕ
next_retry none = 1
next_retry (some n) = n + 1

abbrev or_kept : Option ℕ → Option ℕ → Option ℕ
or_kept none old = old
or_kept (some at) old = some at

abbrev pub marked : Update → IssueState → IssueState
marked u i = record i {
  status = some u.status;
  retry = some (next_retry i.retry);
  details = with_fields u.details i.details;
}

abbrev pub mark_payment : Update → PaymentLog → PaymentLog
mark_payment u p = record p {
  invoice = marked u p.invoice;
  invoice_issued_at = or_kept u.issued_at p.invoice_issued_at;
}

abbrev mark_order : Update → OrderLog → OrderLog
mark_order u o = record o {
  invoice = marked u o.invoice;
  invoice_issued_at = or_kept u.issued_at o.invoice_issued_at;
}

-- `where: { paymentLogs: { no } }`
abbrev pub has_payment : String → List PaymentLog → OrderLog → Bool
has_payment payment_no payments o = any (λ p. (p.no == payment_no) && (p.order_id == o.id)) payments

abbrev pub mark_payments : (PaymentLog → Bool) → Update → List PaymentLog → List PaymentLog
mark_payments chosen u [] = []
mark_payments chosen u (p ∷ ps) =
    (if chosen p then mark_payment u p else p) ∷ mark_payments chosen u ps

abbrev pub mark_orders : (OrderLog → Bool) → Update → List OrderLog → List OrderLog
mark_orders chosen u os = map (λ o. if chosen o then mark_order u o else o) os

-- updateOrderAndPaymentLogInvoiceOptionsByPaymentNo, with the orders that it saves; none where it throws,
-- for a payment that is not found.
unfoldable pub update_by_payment_no : Update → String → Books → Option (List OrderLog × Books)
unfolding get_one_by_no
update_by_payment_no u payment_no b = elim (get_one_by_no payment_no b.payments) [
  | none ↦ none
  | some p ↦ some (
    select (has_payment payment_no b.payments) b.orders,
    record b {
      payments = mark_payments (λ q. q.no == payment_no) u b.payments;
      orders = mark_orders (has_payment payment_no b.payments) u b.orders;
    },
  )
]

-- updateOrderAndPaymentLogInvoiceOptionsByOrderId; none where the order is not found.
unfoldable pub update_by_order_id : Update → String → Books → Option Books
update_by_order_id u id b = elim (find_first (λ o. o.id == id) b.orders) [
  | none ↦ none
  | some o ↦ some (record b {
    payments = mark_payments (λ q. q.order_id == id) u b.payments;
    orders = mark_orders (λ o. o.id == id) u b.orders;
  })
]

-- The invoice gateways of the apps, with their options, and the modules of an app.
pub record Gateway : Type 0 where
  pub app_id : String
  pub gateway_id : String
  pub options : List (String × String)

-- InvoiceService.isAllowUseInvoiceModule
unfoldable is_allow_use_invoice_module : List (String × String) → List String → Bool
is_allow_use_invoice_module config modules =
    is_filled_text (setting "invoice.merchant_id" config)
    && (is_filled_text (setting "invoice.hash_key" config)
        && (is_filled_text (setting "invoice.hash_iv" config) && any (λ m. m == "invoice") modules))

-- InvoiceService.checkInvoiceGatewayConfig; false where it throws.
unfoldable pub check_invoice_gateway_config :
    List Gateway → (String → List String) → String → Option String → Bool
unfolding is_allow_use_invoice_module
check_invoice_gateway_config gateways modules_of app_id gateway_id =
    elim (find_first (λ g. (g.app_id == app_id) && is_text g.gateway_id gateway_id) gateways) [
      | none ↦ false
      | some g ↦ is_allow_use_invoice_module g.options (modules_of app_id)
    ]
