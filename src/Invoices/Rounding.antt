-- ===== src/Invoices/Rounding.antt =====
-- getRoundedListWithCompensation of src/utils.ts and roundProductList of src/invoice/invoice.service.ts.
-- A price or a quantity is exact here and not negative: it counts parts of one, `scale` to each.
use Prim.Native.Nat.{◌/◌}
use lodestar_server.Prelude.{
  ℕ, ◌+◌, ◌-◌, ◌*◌, String, Option, none, some, List, [], ◌∷◌, ◌++◌, map, ltb, if◌then◌else◌,
}

pub data RoundMethod : Type 0 where
  round : RoundMethod
  ceil : RoundMethod
  floor : RoundMethod

pub record RoundMethodsForCompensation : Type 0 where
  pub item_number_round_method : RoundMethod
  pub item_quantity_round_method : RoundMethod
  pub total_round_method : RoundMethod

-- `Math[method]`
unfoldable pub apply_method : RoundMethod → ℕ → ℕ → ℕ
apply_method round scale x = (2 * x + scale) / (2 * scale)
apply_method ceil scale x = (x + (scale - 1)) / scale
apply_method floor scale x = x / scale

-- An item, under the names of ItemForCompensation; not every item has an amount.
pub record Item : Type 0 where
  pub name : String
  pub unit : Option String
  pub number : ℕ
  pub quantity : ℕ
  pub amount : Option ℕ

abbrev pub get_amt : Item → ℕ
get_amt item = item.number * item.quantity

abbrev pub get_total : List Item → ℕ
get_total [] = 0
get_total (item ∷ items) = get_amt item + get_total items

-- evolve sets the amount only where there is one.
abbrev evolve_amount : ℕ → Option ℕ → Option ℕ
evolve_amount new none = none
evolve_amount new (some old) = some new

module _ (m : RoundMethodsForCompensation) (scale : ℕ) where
  unfoldable pub round_item : Item → Item
  unfolding apply_method
  round_item item =
      let number = apply_method m.item_number_round_method scale item.number in
      let quantity = apply_method m.item_quantity_round_method scale item.quantity in
      record item {
        number = number;
        quantity = quantity;
        amount = evolve_amount (number * quantity) item.amount;
      }

  -- The rounded list and the compensation, 0 for none. The list's total counts parts of the square of
  -- `scale`, the rounded list's counts ones.
  unfoldable pub get_rounded_list_with_compensation : List Item → List Item × ℕ
  unfolding round_item
  get_rounded_list_with_compensation items =
      let rounded = map round_item items in
      (
        rounded,
        get_total rounded - apply_method m.total_round_method (scale * scale) (get_total items),
      )

abbrev pub invoice_methods : RoundMethodsForCompensation
invoice_methods = record {
  item_number_round_method = ceil;
  item_quantity_round_method = ceil;
  total_round_method = round;
}

-- `{ ...roundedList[0], ... }`: the item that compensates has all its fields of its own.
abbrev pub compensation_item : ℕ → Item
compensation_item compensation = record {
  name = "化整溢價補償";
  unit = some "筆";
  number = compensation;
  quantity = 1;
  amount = some compensation;
}

-- InvoiceService.roundProductList
unfoldable pub round_product_list : ℕ → List Item → List Item
unfolding get_rounded_list_with_compensation
round_product_list scale items =
    let (rounded, compensation) = get_rounded_list_with_compensation invoice_methods scale items in
    if ltb 0 compensation then rounded ++ (compensation_item compensation ∷ []) else rounded
