-- ===== src/Services/Tax/Laws.antt =====
-- What `CalculateTax` of backend/services/business/Taxes.go computes, without its loops over
-- indices.
use rems.Prelude.{String, true, false, not, ◌&&◌, List, if◌then◌else◌}
use rems.Services.Tax.Lines.{
  Float64, TaxConfiguration, OrderItemForTax, TaxBreakdown, zero_value, percent,
  round_to_2_decimals, tax_on_top, tax_included,
}
use rems.Services.Tax.Loops.{
  sum_where, details_of, is_alcohol, is_standard, subtotal_of, amount_of, taxed, before_tax,
}
use rems.Services.Tax.Rates.{rate_due, is_taken}

module _ (F : Float64) where
  -- The rate that the calculator applies to each item.
  abbrev pub Rate : Type 0
  Rate = OrderItemForTax F → F.Value

  abbrev pub receipt_included :
      TaxConfiguration F → Rate → List (OrderItemForTax F) → TaxBreakdown F
  receipt_included config rate items =
      let amount = amount_of F rate (tax_included F) in
      let subtotal = subtotal_of F items in
      let total = round_to_2_decimals F (sum_where F (λ item. true) amount items (zero_value F)) in
      record (before_tax F config items) {
        taxable_amount = F.sub subtotal total;
        total_tax_amount = total;
        grand_total = subtotal;
        standard_tax_amount =
            round_to_2_decimals F (sum_where F (is_standard F) amount items (zero_value F));
        alcohol_tax_amount =
            round_to_2_decimals F (sum_where F (is_alcohol F) amount items (zero_value F));
        item_tax_breakdown = details_of F (taxed F rate (tax_included F)) items;
      }

  abbrev pub receipt_on_top :
      TaxConfiguration F → Rate → List (OrderItemForTax F) → F.Value → TaxBreakdown F
  receipt_on_top config rate items pct =
      let amount = amount_of F rate (tax_on_top F) in
      let subtotal = subtotal_of F items in
      let charge = if F.is_positive pct then F.mul subtotal (percent F pct) else zero_value F in
      let charge_tax = F.mul charge config.default_tax_rate in
      let taxed_first = config.service_charge_before_tax && F.is_positive pct in
      let all = sum_where F (λ item. true) amount items (zero_value F) in
      let standard = sum_where F (is_standard F) amount items (zero_value F) in
      let alcohol = sum_where F (is_alcohol F) amount items (zero_value F) in
      let all' = if taxed_first then F.add all charge_tax else all in
      let standard' = if taxed_first then F.add standard charge_tax else standard in
      let total = if config.round_tax_amount then round_to_2_decimals F all' else all' in
      record (before_tax F config items) {
        service_charge_amount = charge;
        taxable_amount = if taxed_first then F.add subtotal charge else subtotal;
        total_tax_amount = total;
        grand_total = round_to_2_decimals F (
            if not config.service_charge_before_tax && F.is_positive pct
            then F.add (F.add subtotal total) charge
            else F.add subtotal total);
        standard_tax_amount =
            if config.round_tax_amount then round_to_2_decimals F standard' else standard';
        alcohol_tax_amount =
            if config.round_tax_amount then round_to_2_decimals F alcohol else alcohol;
        item_tax_breakdown = details_of F (taxed F rate (tax_on_top F)) items;
      }

  -- The receipt of an order: included tax is taken out of the prices, tax on top is added where it
  -- is enabled.
  abbrev pub receipt :
      TaxConfiguration F → String → List (OrderItemForTax F) → F.Value → TaxBreakdown F
  receipt config order_type items pct =
      if config.tax_inclusive_pricing
      then receipt_included config (rate_due F config false) items
      else if config.tax_enabled
      then receipt_on_top config (rate_due F config (is_taken F order_type)) items pct
      else record (before_tax F config items) {
        taxable_amount = subtotal_of F items;
        grand_total = subtotal_of F items;
      }

  -- Without tax the subtotal is the total.
  abbrev pub untaxed_order : TaxBreakdown F → TaxBreakdown F
  untaxed_order b = record b {
    taxable_amount = b.subtotal_before_tax;
    grand_total = b.subtotal_before_tax;
  }
