-- ===== src/Tests/Invoices.antt =====
-- Invoices at concrete amounts and runs.
use lodestar_server.Prelude.{
  Bool, length, ◌==◌, if◌then◌else◌, ℕ, ◌+◌, ◌*◌, ◌≤◌, String, ◌≡◌, ◌↔◌, refl, true, false, none,
  some, List, [], ◌∷◌, arith,
}
use lodestar_server.Invoices.Rounding.{Item, get_total, round_product_list}
use lodestar_server.Invoices.Totals.{invoice_total, rounded_total, compensation-doubles}
use lodestar_server.Invoices.Request.{InvoiceOptions, invoice_request}
use lodestar_server.Invoices.Tax.{invoice_request-adds_up}
use lodestar_server.Invoices.Payments.{
  IssueState, PaymentLog, Books, Gateway, get_should_issue, get_one_by_no,
  check_invoice_gateway_config,
}
use lodestar_server.Invoices.Issue.{Response, Run, execute}
use lodestar_server.Invoices.Retries.{is_committed, tries}
use lodestar_server.Invoices.RolledBack.{execute-rolled_back}
use lodestar_server.Invoices.Unanswered.{after_runs, after_runs-unanswered}

abbrev item : ℕ → Item
item number = record { name = "a"; unit = none; number = number; quantity = 10; amount = none }

-- Two items of 1.5 each, in tenths.
abbrev items : List Item
items = item 15 ∷ item 15 ∷ []

compensation-doubles_example :
    (invoice_total 10 items ≤ rounded_total 10 items)
    × (get_total (round_product_list 10 items) + invoice_total 10 items
        ≡ 2 * rounded_total 10 items)
    × ((get_total (round_product_list 10 items) ≡ invoice_total 10 items)
        ↔ (rounded_total 10 items ≡ invoice_total 10 items))
compensation-doubles_example = compensation-doubles 10 items (omega arith)

-- They are stated as 3 and listed as 5.
listed_as_five :
    Path (ℕ × ℕ) (invoice_total 10 items, get_total (round_product_list 10 items)) (3, 5)
unfolding round_product_list
listed_as_five = refl

abbrev options : InvoiceOptions
options = record {
  app_id = "app";
  name = some "Alice";
  email = some "a@x";
  products = item 1000 ∷ [];
  discounts = [];
  shipping = none;
  is_duty_free = false;
  donation_code = none;
  phone_bar_code = none;
  uniform_number = some "12345678";
  uniform_title = none;
  citizen_code = none;
  kiosk_print_flag = none;
}

invoice_request-adds_up_example :
    ((invoice_request 10 "n-1" 1000 options).amt + (invoice_request 10 "n-1" 1000 options).tax_amt
      ≡ (invoice_request 10 "n-1" 1000 options).total_amt)
    × ((invoice_request 10 "n-1" 1000 options).tax_amt * 10 ≤ 1000)
invoice_request-adds_up_example = invoice_request-adds_up 10 "n-1" 1000 options (omega arith)

abbrev untried : IssueState
untried = record { status = none; retry = none; is_skipped = false; details = [] }

abbrev payment : List String → PaymentLog
payment invoices = record {
  no = "n";
  order_id = "o";
  order_app_id = "app";
  member_app_id = "app";
  status = some "SUCCESS";
  price = 100;
  gateway = some "tappay";
  paid_at = some 1000;
  invoice_gateway_id = some "g";
  invoice_issued_at = none;
  invoice = untried;
  invoices = invoices;
}

abbrev books : List String → Books
books invoices = record {
  payments = payment invoices ∷ [];
  orders = record { id = "o"; invoice = untried; invoice_issued_at = none } ∷ [];
  invoices = [];
}

abbrev gateways : List Gateway
gateways =
    record {
      app_id = "app";
      gateway_id = "g";
      options =
          ("invoice.merchant_id", "1") ∷ ("invoice.hash_key", "k") ∷ ("invoice.hash_iv", "v") ∷ [];
    }
    ∷ []

abbrev modules_of : String → List String
modules_of app_id = "invoice" ∷ []

-- A run in which the client throws.
abbrev silent : Run
silent = record {
  now = 2000;
  limit = 20;
  answer = λ payment_no. none;
  answer_invoice = λ payment_no invoice. none;
}

abbrev six : List Run
six = silent ∷ silent ∷ silent ∷ silent ∷ silent ∷ silent ∷ []

-- All five are used.
five_tries : tries gateways modules_of "n" six (books []) ≡ 5
unfolding execute
five_tries = refl

after_runs-unanswered_example :
    get_one_by_no "n" (after_runs gateways modules_of six (books ("i" ∷ []))).payments
    ≡ some (payment ("i" ∷ []))
unfolding get_one_by_no check_invoice_gateway_config
after_runs-unanswered_example =
    after_runs-unanswered gateways modules_of (payment ("i" ∷ [])) "i" [] six (books ("i" ∷ []))
      refl ((refl, tt), ((refl, tt), ((refl, tt), ((refl, tt), ((refl, tt), ((refl, tt), tt))))))
      (((λ e. refl), tt), refl)

-- Two payments of one order, both answered: the order's second invoice cannot be inserted.
abbrev success : Response
success = record { status = "SUCCESS"; invoice_number = some "AA1"; details = [] }

abbrev answering : Run
answering = record {
  now = 2000;
  limit = 20;
  answer = λ payment_no.
      some (if payment_no == "n" then success else record success { invoice_number = some "AA2" });
  answer_invoice = λ payment_no invoice. none;
}

abbrev two_payments : Books
two_payments = record {
  payments = payment [] ∷ record (payment []) { no = "k" } ∷ [];
  orders = record { id = "o"; invoice = untried; invoice_issued_at = none } ∷ [];
  invoices = [];
}

-- The run is rolled back, the first payment's invoice included.
rolled_back :
    Path
      (Bool × Bool × ℕ)
      (
        (execute gateways modules_of answering two_payments).0,
        is_committed gateways modules_of answering two_payments,
        length (execute gateways modules_of answering two_payments).1.invoices,
      )
      (true, false, 0)
unfolding execute
rolled_back = refl

lost : is_committed gateways modules_of answering two_payments ≡ false
unfolding execute
lost = refl

execute-rolled_back_example :
    execute gateways modules_of answering two_payments ≡ (true, two_payments)
unfolding get_should_issue
execute-rolled_back_example =
    execute-rolled_back gateways modules_of answering two_payments (refl, (refl, tt)) lost

-- With one payment the invoice is kept.
kept_invoice : length (execute gateways modules_of answering (books [])).1.invoices ≡ 1
unfolding execute
kept_invoice = refl
