-- ===== src/Services/Tax/Lines.antt =====
-- The data of the tax calculator, its configuration, and the line totals and rates of items:
-- backend/services/business/Taxes.go. Its `float64` arithmetic is a parameter: an
-- instance of `Float64` has the operations that the code calls, and no law is asked of them.
use rems.Prelude.{
  String, Bool, true, ◌||◌, Option, none, some, List, [], ◌∷◌, ◌++◌, if◌then◌else◌, str_eq,
}
use rems.Prelude.Int.{ℤ, pos}

-- `of_int` is `float64(n)`, `truncate` is `int(x)`, `is_positive` is `x > 0`, `half` is 0.5.
pub record Float64 : Type 1 where
  pub Value : Type 0
  pub add : Value → Value → Value
  pub sub : Value → Value → Value
  pub mul : Value → Value → Value
  pub div : Value → Value → Value
  pub of_int : ℤ → Value
  pub truncate : Value → ℤ
  pub is_positive : Value → Bool
  pub half : Value

pub record TaxConfiguration (F : Float64) : Type 0 where
  pub tax_enabled : Bool
  pub tax_inclusive_pricing : Bool
  pub default_tax_rate : F.Value
  pub alcohol_tax_rate : F.Value
  pub takeaway_tax_rate : F.Value
  pub service_charge_before_tax : Bool
  pub round_tax_amount : Bool
  pub show_tax_breakdown : Bool
  pub tax_label : String

-- The fields of a restaurant profile that the configuration reads.
pub record RestaurantProfile (F : Float64) : Type 0 where
  pub tax_inclusive_pricing : Bool
  pub default_tax_rate : F.Value
  pub alcohol_tax_rate : F.Value

-- What the settings service answers: `none` is an error.
pub record TaxSettings (F : Float64) : Type 0 where
  pub profile : Option (RestaurantProfile F)
  pub tax_enabled : Option Bool
  pub tax_label : Option String
  pub takeaway_tax_rate : Option F.Value
  pub service_charge_before_tax : Option Bool

pub record ModifierForTax (F : Float64) : Type 0 where
  pub name : String
  pub additional_price : F.Value

pub record OrderItemForTax (F : Float64) : Type 0 where
  pub item_name : String
  pub unit_price : F.Value
  pub quantity : ℤ
  pub tax_category : String
  pub modifiers : List (ModifierForTax F)

pub record ItemTaxDetail (F : Float64) : Type 0 where
  pub item_name : String
  pub quantity : ℤ
  pub unit_price : F.Value
  pub line_total : F.Value
  pub tax_rate : F.Value
  pub tax_amount : F.Value
  pub tax_category : String

pub record TaxBreakdown (F : Float64) : Type 0 where
  pub subtotal_before_tax : F.Value
  pub service_charge_amount : F.Value
  pub taxable_amount : F.Value
  pub total_tax_amount : F.Value
  pub grand_total : F.Value
  pub standard_tax_amount : F.Value
  pub alcohol_tax_amount : F.Value
  pub tax_included_in_price : Bool
  pub tax_rate : F.Value
  pub item_tax_breakdown : List (ItemTaxDetail F)

-- `v, err := get(); if err != nil { v = default }`
abbrev pub or_default : {A : Type 0} → Option A → A → A
or_default (some v) d = v
or_default none d = d

module _ (F : Float64) where
  abbrev pub zero_value : F.Value
  zero_value = F.of_int (pos 0)

  abbrev pub percent : F.Value → F.Value
  percent v = F.div v (F.of_int (pos 100))

  -- `none` is the error of the profile; a missing setting has a default.
  unfoldable pub get_tax_configuration : TaxSettings F → Option (TaxConfiguration F)
  get_tax_configuration s = elim s.profile [
    | none ↦ none
    | some profile ↦ some (record {
      tax_enabled = or_default s.tax_enabled true;
      tax_inclusive_pricing = profile.tax_inclusive_pricing;
      default_tax_rate = percent profile.default_tax_rate;
      alcohol_tax_rate = percent profile.alcohol_tax_rate;
      takeaway_tax_rate = percent (or_default s.takeaway_tax_rate profile.default_tax_rate);
      service_charge_before_tax = or_default s.service_charge_before_tax true;
      round_tax_amount = true;
      show_tax_breakdown = true;
      tax_label = or_default s.tax_label "Tax";
    })
  ]

  abbrev pub round_to_2_decimals : F.Value → F.Value
  round_to_2_decimals v =
      percent (F.of_int (F.truncate (F.add (F.mul v (F.of_int (pos 100))) F.half)))

  -- The loop over the modifiers of an item.
  unfoldable pub add_modifiers : ℤ → List (ModifierForTax F) → F.Value → F.Value
  add_modifiers quantity [] total = total
  add_modifiers quantity (mod_ ∷ mods) total =
      add_modifiers quantity mods (F.add total (F.mul mod_.additional_price (F.of_int quantity)))

  unfoldable pub line_total : OrderItemForTax F → F.Value
  unfolding add_modifiers
  line_total item =
      add_modifiers item.quantity item.modifiers (F.mul item.unit_price (F.of_int item.quantity))

  -- The detail that the first loop appends: no rate and no tax yet.
  unfoldable pub untaxed : OrderItemForTax F → ItemTaxDetail F
  unfolding line_total
  untaxed item = record {
    item_name = item.item_name;
    quantity = item.quantity;
    unit_price = item.unit_price;
    line_total = line_total item;
    tax_rate = zero_value;
    tax_amount = zero_value;
    tax_category = item.tax_category;
  }

  -- Step 1: the subtotal and the details.
  unfoldable pub add_lines :
      List (OrderItemForTax F) → F.Value × List (ItemTaxDetail F) → F.Value × List (ItemTaxDetail F)
  unfolding untaxed
  add_lines [] (subtotal, details) = (subtotal, details)
  add_lines (item ∷ items) (subtotal, details) =
      add_lines items (F.add subtotal (line_total item), details ++ (untaxed item ∷ []))

  -- The `switch` of step 5, and that of `extractIncludedTax`.
  unfoldable pub rate_on_top : TaxConfiguration F → String → OrderItemForTax F → F.Value
  rate_on_top config order_type item =
      if str_eq item.tax_category "alcohol"
      then config.alcohol_tax_rate
      else if str_eq item.tax_category "takeaway"
      then if str_eq order_type "takeaway" || str_eq order_type "delivery"
        then config.takeaway_tax_rate
        else config.default_tax_rate
      else if str_eq item.tax_category "exempt"
      then zero_value
      else config.default_tax_rate

  unfoldable pub rate_included : TaxConfiguration F → OrderItemForTax F → F.Value
  rate_included config item =
      if str_eq item.tax_category "alcohol"
      then config.alcohol_tax_rate
      else if str_eq item.tax_category "exempt"
      then zero_value
      else config.default_tax_rate

  abbrev pub tax_on_top : F.Value → F.Value → F.Value
  tax_on_top total rate = F.mul total rate

  abbrev pub tax_included : F.Value → F.Value → F.Value
  tax_included total rate = F.sub total (F.div total (F.add (F.of_int (pos 1)) rate))
