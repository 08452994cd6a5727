-- ===== src/Invoices/Totals.antt =====
-- What the items of an invoice add up to after roundProductList of src/invoice/invoice.service.ts.
use Prim.Native.Nat.{◌/◌}
use native.Mathlib.Nat.{lt-mul-div-succ, div-lt_iff_lt-mul, mul-pos, mul-le-mul, mul-mul-mul_comm}
use lodestar_server.Prelude.{
  ℕ, ◌+◌, ◌-◌, ◌*◌, ◌≤◌, ◌<◌, ◌≡◌, ◌∙◌, ◌↔◌, List, [], ◌∷◌, ◌++◌, map, ltb, arith, Bool-cases, inl,
  inr,
}
use lodestar_server.Invoices.Rounding.{
  Item, ceil, round, apply_method, get_amt, get_total, round_item,
  get_rounded_list_with_compensation, invoice_methods, compensation_item, round_product_list,
}

-- Rounding up loses nothing.
le-ceil : (scale x : ℕ) → 0 < scale → x ≤ apply_method ceil scale x * scale
unfolding apply_method
le-ceil scale x h =
    let q = (x + (scale - 1)) / scale in
    let above : x + (scale - 1) < scale * (q + 1) = lt-mul-div-succ (x + (scale - 1)) h in
    let spread : scale * (q + 1) ≡ q * scale + scale = omega arith in omega (arith, above, spread)

-- A number that is at most a whole one is rounded to at most that.
round-le : (whole x n : ℕ) → 0 < whole → x ≤ n * whole → apply_method round whole x ≤ n
unfolding apply_method
round-le whole x n h le =
    let shape : (n + 1) * (2 * whole) ≡ 2 * (n * whole) + 2 * whole = omega arith in
    let below : (2 * x + whole) / (2 * whole) < n + 1 =
      (div-lt_iff_lt-mul (omega arith)).1 (omega (arith, shape)) in
    omega (arith, below)

le-round_item :
    (scale : ℕ) (item : Item)
    → 0 < scale
    → get_amt item ≤ get_amt (round_item invoice_methods scale item) * (scale * scale)
unfolding round_item
le-round_item scale item h =
    let number = apply_method ceil scale item.number in
    let quantity = apply_method ceil scale item.quantity in
    let le : item.number * item.quantity ≤ (number * scale) * (quantity * scale) =
      mul-le-mul (le-ceil scale item.number h) (le-ceil scale item.quantity h) in
    omega (arith, le, mul-mul-mul_comm number scale quantity scale)

le-rounded_total :
    (scale : ℕ) (items : List Item)
    → 0 < scale
    → get_total items ≤ get_total (map (round_item invoice_methods scale) items) * (scale * scale)
le-rounded_total scale [] h = omega arith
le-rounded_total scale (item ∷ items) h =
    let own = round_item invoice_methods scale item in
    let others = get_total (map (round_item invoice_methods scale) items) in
    let shape : (get_amt own + others) * (scale * scale)
        ≡ get_amt own * (scale * scale) + others * (scale * scale) =
      omega arith in
    omega (arith, shape, le-round_item scale item h, le-rounded_total scale items h)

get_total-append : (xs ys : List Item) → get_total (xs ++ ys) ≡ get_total xs + get_total ys
get_total-append [] ys = omega arith
get_total-append (x ∷ xs) ys = omega (arith, get_total-append xs ys)

-- The total that the invoice as a whole states for the items.
abbrev pub invoice_total : ℕ → List Item → ℕ
invoice_total scale items = apply_method round (scale * scale) (get_total items)

abbrev pub rounded_total : ℕ → List Item → ℕ
rounded_total scale items = get_total (map (round_item invoice_methods scale) items)

invoice_total-le :
    (scale : ℕ) (items : List Item)
    → 0 < scale
    → invoice_total scale items ≤ rounded_total scale items
invoice_total-le scale items h =
    round-le (scale * scale) (get_total items) (rounded_total scale items) (mul-pos h h)
      (le-rounded_total scale items h)

compensated_total :
    (scale : ℕ) (items : List Item)
    → get_total (round_product_list scale items)
      ≡ rounded_total scale items + (rounded_total scale items - invoice_total scale items)
unfolding round_product_list get_rounded_list_with_compensation
compensated_total scale items =
    let rounded = map (round_item invoice_methods scale) items in
    let gap = rounded_total scale items - invoice_total scale items in
    elim (Bool-cases (ltb 0 gap)) [
      | inl some_gap ↦
          rw (round_product_list, some_gap)
            (get_total-append rounded (compensation_item gap ∷ []) ∙ omega arith)
      | inr no_gap ↦
          let nothing : gap ≡ 0 = ground (arith, no_gap) in
          rw (round_product_list, no_gap) (omega (arith, nothing))
    ]

-- For any items, and any fineness of their prices: the items rounded up never add up to less than the total
-- that is stated, which is their exact total rounded; and the items with the compensation add up to that
-- total exactly if they did without it, since the compensation is added once more and not taken off.
pub compensation-doubles :
    (scale : ℕ) (items : List Item)
    → 0 < scale
    → (invoice_total scale items ≤ rounded_total scale items)
      × (get_total (round_product_list scale items) + invoice_total scale items
          ≡ 2 * rounded_total scale items)
      × ((get_total (round_product_list scale items) ≡ invoice_total scale items)
          ↔ (rounded_total scale items ≡ invoice_total scale items))
compensation-doubles scale items h =
    let le = invoice_total-le scale items h in
    let whole = compensated_total scale items in
    (
      le,
      omega (arith, le, whole),
      (λ e. omega (arith, le, whole, e), λ e. omega (arith, le, whole, e)),
    )
