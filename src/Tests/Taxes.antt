-- ===== src/Tests/Taxes.antt =====
-- A bill of two items with a service charge: backend/services/business/Taxes.go. Amounts are whole
-- numbers here, and rates multiply.
use rems.Prelude.{String, ℕ, ◌+◌, ◌-◌, ◌*◌, ◌/◌, ltb, ◌≡◌, refl, true, false, [], ◌∷◌, List}
use rems.Prelude.Int.{pos, pos_part}
use rems.Services.Tax.Lines.{Float64, TaxConfiguration, OrderItemForTax}
use rems.Prelude.Dict.{Dict}
use rems.Services.Tax.Category.{FlagValue, text, bool, is_flag_true, determine_tax_category}

abbrev whole_numbers : Float64
whole_numbers = record {
  Value = ℕ;
  add = λ a b. a + b;
  sub = λ a b. a - b;
  mul = λ a b. a * b;
  div = λ a b. a / b;
  of_int = pos_part;
  truncate = pos;
  is_positive = λ a. ltb 0 a;
  half = 0;
}

abbrev momo : OrderItemForTax whole_numbers
momo = record {
  item_name = "Momo";
  unit_price = 200;
  quantity = pos 2;
  tax_category = "standard";
  modifiers = record { name = "cheese"; additional_price = 50 } ∷ [];
}

abbrev beer : OrderItemForTax whole_numbers
beer = record {
  item_name = "Beer";
  unit_price = 300;
  quantity = pos 1;
  tax_category = "alcohol";
  modifiers = [];
}

abbrev on_top : TaxConfiguration whole_numbers
on_top = record {
  tax_enabled = true;
  tax_inclusive_pricing = false;
  default_tax_rate = 1;
  alcohol_tax_rate = 2;
  takeaway_tax_rate = 1;
  service_charge_before_tax = true;
  round_tax_amount = true;
  show_tax_breakdown = true;
  tax_label = "VAT";
}

abbrev bill : List (OrderItemForTax whole_numbers)
bill = momo ∷ beer ∷ []

abbrev beer_flags : Dict String FlagValue
beer_flags = ("takeaway_eligible", text "true") ∷ ("alcohol", bool true) ∷ []

beer_category : beer.tax_category ≡ determine_tax_category beer_flags
unfolding determine_tax_category
beer_category = refl

beer_is_alcohol : is_flag_true beer_flags "alcohol" ≡ true
unfolding is_flag_true
beer_is_alcohol = refl
