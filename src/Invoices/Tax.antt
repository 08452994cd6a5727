-- ===== src/Invoices/Tax.antt =====
-- The amounts of a request of issueInvoice in src/invoice/invoice.service.ts agree.
use Prim.Native.Nat.{◌/◌}
use native.Mathlib.Nat.{mul-div-le, add-mul-div_right, div-lt_iff_lt-mul}
use lodestar_server.Prelude.{
  ℕ, zero, suc, ◌+◌, ◌*◌, ◌≤◌, ◌<◌, String, ◌≡◌, ◌∙◌, sym, ap, Bool, true, false, arith,
}
use lodestar_server.Invoices.Rounding.{round, apply_method}
use lodestar_server.Invoices.Request.{InvoiceOptions, tax_amount, untaxed, invoice_request}

-- A whole number that a 21st part of the amount is rounded to is no more than the amount.
whole-le : (q scale amount : ℕ) → 42 * (q * scale) ≤ 2 * amount + 21 * scale → q * scale ≤ amount
whole-le zero scale amount h = omega arith
whole-le (suc k) scale amount h =
    let split : suc k * scale ≡ scale + k * scale = omega arith in omega (arith, h, split)

tax_amount-le :
    (is_duty_free : Bool) (scale amount : ℕ)
    → 0 < scale
    → tax_amount is_duty_free scale amount * scale ≤ amount
unfolding tax_amount apply_method
tax_amount-le true scale amount h =
    let q = (2 * 0 + scale) / (2 * scale) in
    let below : q < 1 = (div-lt_iff_lt-mul (omega (arith, h))).1 (omega (arith, h)) in
    let none_left : q ≡ 0 = omega (arith, below) in rw none_left (omega arith)
tax_amount-le false scale amount h =
    let q = (2 * amount + 21 * scale) / (2 * (21 * scale)) in
    let part : 2 * (21 * scale) * q ≤ 2 * amount + 21 * scale =
      mul-div-le (2 * amount + 21 * scale) (2 * (21 * scale)) in
    let shape : 2 * (21 * scale) * q ≡ 42 * (q * scale) = omega arith in
    whole-le q scale amount (omega (arith, part, shape))

-- A whole number can be taken out of what is rounded.
round-shift :
    (scale n x : ℕ)
    → 0 < scale
    → apply_method round scale (x + n * scale) ≡ apply_method round scale x + n
unfolding apply_method
round-shift scale n x h =
    let shape : 2 * (x + n * scale) + scale ≡ (2 * x + scale) + n * (2 * scale) = omega arith in
    ap (λ y. y / (2 * scale)) shape ∙ add-mul-div_right (2 * x + scale) n (omega (arith, h))

-- The amount without the tax, which is rounded after the tax was, and the tax always add up to the rounded
-- total of the request, and the tax is never more than the amount.
pub invoice_request-adds_up :
    (scale : ℕ) (payment_no : String) (amount : ℕ) (o : InvoiceOptions)
    → 0 < scale
    → ((invoice_request scale payment_no amount o).amt
          + (invoice_request scale payment_no amount o).tax_amt
        ≡ (invoice_request scale payment_no amount o).total_amt)
      × ((invoice_request scale payment_no amount o).tax_amt * scale ≤ amount)
unfolding invoice_request
invoice_request-adds_up scale payment_no amount o h =
    let le = tax_amount-le o.is_duty_free scale amount h in
    let whole : untaxed o.is_duty_free scale amount + tax_amount o.is_duty_free scale amount * scale
        ≡ amount =
      omega (arith, le) in
    (
      sym (
            round-shift scale (tax_amount o.is_duty_free scale amount)
              (untaxed o.is_duty_free scale amount) h)
          ∙ ap (λ x. apply_method round scale x) whole,
      le,
    )
