-- ===== src/Services/Tax/Calculate.antt =====
-- `CalculateTax` and `extractIncludedTax` of backend/services/business/Taxes.go. Both tax loops are
-- one loop here, over the rate of an item and the tax of a total at a rate.
use rems.Prelude.{
  ℕ, suc, String, not, ◌&&◌, Option, none, some, List, [], ◌∷◌, if◌then◌else◌, get_elem?, set,
  str_eq,
}
use rems.Services.Tax.Lines.{
  Float64, TaxConfiguration, OrderItemForTax, ItemTaxDetail, TaxBreakdown, zero_value, percent,
  round_to_2_decimals, add_lines, rate_on_top, rate_included, tax_on_top, tax_included,
}

-- What comes after a loop; `none` is its panic.
abbrev pub unless_panic : {A B : Type 0} → (A → B) → Option A → Option B
unless_panic f none = none
unless_panic f (some a) = some (f a)

module _ (F : Float64) where
  -- The body of a tax loop for item `i`, whose detail is `d`.
  abbrev pub tax_item :
      (OrderItemForTax F → F.Value)
      → (F.Value → F.Value → F.Value)
      → ℕ
      → OrderItemForTax F
      → ItemTaxDetail F
      → TaxBreakdown F
      → TaxBreakdown F
  tax_item rate tax i item d b =
      let r = rate item in
      let amount = tax d.line_total r in
      let is_alcohol = str_eq item.tax_category "alcohol" in
      record b {
        item_tax_breakdown =
            set b.item_tax_breakdown i (record d { tax_rate = r; tax_amount = amount });
        alcohol_tax_amount =
            if is_alcohol then F.add b.alcohol_tax_amount amount else b.alcohol_tax_amount;
        standard_tax_amount =
            if is_alcohol then b.standard_tax_amount else F.add b.standard_tax_amount amount;
        total_tax_amount = F.add b.total_tax_amount amount;
      }

  -- `for i, item := range items` over `breakdown.ItemTaxBreakdown[i]`; `none` is the panic of an
  -- index out of range.
  unfoldable pub tax_items :
      (OrderItemForTax F → F.Value)
      → (F.Value → F.Value → F.Value)
      → ℕ
      → List (OrderItemForTax F)
      → TaxBreakdown F
      → Option (TaxBreakdown F)
  tax_items rate tax i [] b = some b
  tax_items rate tax i (item ∷ items) b = elim (get_elem? b.item_tax_breakdown i) [
    | none ↦ none
    | some d ↦ tax_items rate tax (suc i) items (tax_item rate tax i item d b)
  ]

  abbrev pub round_taxes : TaxBreakdown F → TaxBreakdown F
  round_taxes b = record b {
    total_tax_amount = round_to_2_decimals F b.total_tax_amount;
    standard_tax_amount = round_to_2_decimals F b.standard_tax_amount;
    alcohol_tax_amount = round_to_2_decimals F b.alcohol_tax_amount;
  }

  -- `extractIncludedTax` after its loop.
  abbrev pub finish_included : TaxBreakdown F → TaxBreakdown F
  finish_included b =
      let b' = round_taxes b in
      record b' {
        taxable_amount = F.sub b'.subtotal_before_tax b'.total_tax_amount;
        grand_total = b'.subtotal_before_tax;
      }

  -- Step 4.
  abbrev pub with_service_charge : TaxConfiguration F → F.Value → TaxBreakdown F → TaxBreakdown F
  with_service_charge config pct b =
      let subtotal = b.subtotal_before_tax in
      let charge = F.mul subtotal (percent F pct) in
      if F.is_positive pct
      then record b {
        service_charge_amount = charge;
        taxable_amount =
            if config.service_charge_before_tax then F.add subtotal charge else subtotal;
      }
      else record b { taxable_amount = subtotal }

  -- Step 6.
  abbrev pub tax_service_charge : TaxConfiguration F → F.Value → TaxBreakdown F → TaxBreakdown F
  tax_service_charge config pct b =
      let amount = F.mul b.service_charge_amount config.default_tax_rate in
      if config.service_charge_before_tax && F.is_positive pct
      then record b {
        standard_tax_amount = F.add b.standard_tax_amount amount;
        total_tax_amount = F.add b.total_tax_amount amount;
      }
      else b

  -- Step 8.
  abbrev pub add_up : TaxConfiguration F → F.Value → TaxBreakdown F → TaxBreakdown F
  add_up config pct b =
      let total = F.add b.subtotal_before_tax b.total_tax_amount in
      record b {
        grand_total = round_to_2_decimals F (
            if not config.service_charge_before_tax && F.is_positive pct
            then F.add total b.service_charge_amount
            else total);
      }

  -- Steps 6 to 8.
  abbrev pub finish_on_top : TaxConfiguration F → F.Value → TaxBreakdown F → TaxBreakdown F
  finish_on_top config pct b =
      let b₁ = tax_service_charge config pct b in
      add_up config pct (if config.round_tax_amount then round_taxes b₁ else b₁)

  -- The breakdown after step 1.
  unfoldable pub itemised : TaxConfiguration F → List (OrderItemForTax F) → TaxBreakdown F
  unfolding add_lines
  itemised config items =
      let (subtotal, details) = add_lines F items (zero_value F, []) in
      record {
        subtotal_before_tax = subtotal;
        service_charge_amount = zero_value F;
        taxable_amount = zero_value F;
        total_tax_amount = zero_value F;
        grand_total = zero_value F;
        standard_tax_amount = zero_value F;
        alcohol_tax_amount = zero_value F;
        tax_included_in_price = config.tax_inclusive_pricing;
        tax_rate = zero_value F;
        item_tax_breakdown = details;
      }

  -- `CalculateTax` once the configuration is loaded; `none` is a panic.
  unfoldable pub calculate_tax :
      TaxConfiguration F → String → List (OrderItemForTax F) → F.Value → Option (TaxBreakdown F)
  unfolding itemised tax_items rate_on_top rate_included
  calculate_tax config order_type items pct =
      let b = itemised config items in
      if config.tax_inclusive_pricing
      then unless_panic finish_included
          (tax_items (rate_included F config) (tax_included F) 0 items b)
      else if not config.tax_enabled
      then some
          (record b { taxable_amount = b.subtotal_before_tax; grand_total = b.subtotal_before_tax })
      else unless_panic (finish_on_top config pct) (
          tax_items (rate_on_top F config order_type) (tax_on_top F) 0 items
            (with_service_charge config pct b))
