-- ===== src/Invoices/Request.antt =====
-- issueInvoice of src/invoice/invoice.service.ts: the request for an invoice. Amounts are exact and count
-- parts of one, `scale` to each, but for those that are rounded, which count ones. The names and the units
-- of the items, the comment and the kinds of tax are left out.
use Prim.Native.Char.{code}
use Prim.Native.String.{[], ◌∷◌, ◌++◌}
use mathlib.Core.List
use lodestar_server.Prelude.{
  ℕ, zero, suc, ◌-◌, ◌*◌, String, Bool, true, false, Option, none, some, List, map, ◌==◌, eqb,
  or_blank, if◌then◌else◌,
}
use lodestar_server.Apps.Info.{is_filled_text}
use lodestar_server.Invoices.Rounding.{Item, round, apply_method, round_product_list}

-- A shipping is its method and its fee, a discount its price.
pub record InvoiceOptions : Type 0 where
  pub app_id : String
  pub name : Option String
  pub email : Option String
  pub products : List Item
  pub discounts : List ℕ
  pub shipping : Option (Option String × ℕ)
  pub is_duty_free : Bool
  pub donation_code : Option String
  pub phone_bar_code : Option String
  pub uniform_number : Option String
  pub uniform_title : Option String
  pub citizen_code : Option String
  pub kiosk_print_flag : Option String

-- What invoiceAttrs can hold; a field that is left out is none.
pub record InvoiceAttrs : Type 0 where
  pub category : Option String
  pub love_code : Option String
  pub carrier_type : Option String
  pub carrier_num : Option String
  pub buyer_ubn : Option String
  pub print_flag : Option String
  pub kiosk_print_flag : Option String

abbrev no_attrs : InvoiceAttrs
no_attrs = record {
  category = none;
  love_code = none;
  carrier_type = none;
  carrier_num = none;
  buyer_ubn = none;
  print_flag = none;
  kiosk_print_flag = none;
}

abbrev with_carrier : String → Option String → InvoiceAttrs
with_carrier kind number = record no_attrs {
  category = some "B2C";
  carrier_type = some kind;
  carrier_num = number;
  print_flag = some "N";
}

-- The first of the ways to hand an invoice over that the options have.
unfoldable invoice_attrs : InvoiceOptions → InvoiceAttrs
invoice_attrs o =
    if is_filled_text o.donation_code
    then record no_attrs {
      category = some "B2C";
      love_code = o.donation_code;
      print_flag = some "N";
    }
    else if is_filled_text o.phone_bar_code
    then with_carrier "0" o.phone_bar_code
    else if is_filled_text o.uniform_number
    then record no_attrs {
      category = some "B2B";
      buyer_ubn = o.uniform_number;
      print_flag = some "Y";
    }
    else if is_filled_text o.citizen_code
    then with_carrier "1" o.citizen_code
    else if is_filled_text o.kiosk_print_flag
    then record (with_carrier "2" (some (o.app_id ++ ("-" ++ or_blank o.email)))) {
      kiosk_print_flag = some "1";
    }
    else if is_filled_text o.email
    then record no_attrs { category = some "B2C"; print_flag = some "Y" }
    else no_attrs

-- `invoiceAttrs.Category === 'B2B'`
abbrev is_company : InvoiceOptions → Bool
is_company o = or_blank (invoice_attrs o).category == "B2B"

-- `PrintFlag: 'Y', ...invoiceAttrs`
abbrev flag_or_yes : Option String → String
flag_or_yes none = "Y"
flag_or_yes (some flag) = flag

-- `.replace(/-/g, '')`
abbrev without_dashes : String → String
without_dashes [] = []
without_dashes (c ∷ s) = let rest = without_dashes s in if eqb (code c) b'-' then rest else c ∷ rest

-- `.substr(0, n)`
abbrev first_characters : ℕ → String → String
first_characters zero s = []
first_characters (suc n) [] = []
first_characters (suc n) (c ∷ s) = c ∷ first_characters n s

-- `Math.round(amount - amount / (1 + TaxRate))`, where the rate is 0.05 or 0.
unfoldable pub tax_amount : Bool → ℕ → ℕ → ℕ
unfolding apply_method
tax_amount true scale amount = apply_method round scale 0
tax_amount false scale amount = apply_method round (21 * scale) amount

-- `Amt`, before it is rounded.
abbrev pub untaxed : Bool → ℕ → ℕ → ℕ
untaxed is_duty_free scale amount = amount - tax_amount is_duty_free scale amount * scale

-- An amount of the request, in parts, with its sign.
pub data Amount : Type 0 where
  plus : ℕ → Amount
  minus : ℕ → Amount

-- `Math.round(price / (1 + TaxRate))` for a company, in parts.
abbrev net_price : Bool → Bool → ℕ → ℕ → ℕ
net_price true true scale price = apply_method round scale price * scale
net_price true false scale price = apply_method round (21 * scale) (20 * price) * scale
net_price false is_duty_free scale price = price

abbrev shipping_amounts : (ℕ → ℕ) → Option (Option String × ℕ) → List Amount
shipping_amounts net none = List.[]
shipping_amounts net (some s) =
    if is_filled_text s.0 then List.◌∷◌ (plus (net s.1)) List.[] else List.[]

-- ItemPrice and ItemAmt, which are the same: the products rounded, the discounts and the shipping.
unfoldable pub item_amounts : ℕ → InvoiceOptions → List Amount
unfolding invoice_attrs round_product_list
item_amounts scale o =
    let net = net_price (is_company o) o.is_duty_free scale in
    List.◌++◌ (map (λ p. plus (net (p.number * scale))) (round_product_list scale o.products))
      (List.◌++◌ (map (λ d. minus (net d)) o.discounts) (shipping_amounts net o.shipping))

pub record InvoiceRequest : Type 0 where
  pub item_amt : List Amount
  pub amt : ℕ
  pub total_amt : ℕ
  pub tax_amt : ℕ
  pub amt_free : Option ℕ
  pub buyer_name : Option String
  pub buyer_email : String
  pub print_flag : String
  pub merchant_order_no : String
  pub attrs : InvoiceAttrs

unfoldable pub invoice_request : ℕ → String → ℕ → InvoiceOptions → InvoiceRequest
unfolding item_amounts tax_amount
invoice_request scale payment_no amount o = record {
  item_amt = item_amounts scale o;
  amt = apply_method round scale (untaxed o.is_duty_free scale amount);
  total_amt = apply_method round scale amount;
  tax_amt = tax_amount o.is_duty_free scale amount;
  amt_free = if o.is_duty_free then some (untaxed true scale amount) else none;
  buyer_name = if is_company o then o.uniform_title else some (or_blank o.name);
  buyer_email = or_blank o.email;
  print_flag = flag_or_yes (invoice_attrs o).print_flag;
  merchant_order_no = first_characters 20 (without_dashes payment_no);
  attrs = invoice_attrs o;
}
