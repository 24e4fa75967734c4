-- ===== src/Services/Tax/Rates.antt =====
-- The rate of an item: backend/services/business/Taxes.go, the `switch` of `CalculateTax` and that of
-- `extractIncludedTax`.
use rems.Prelude.{
  ◌||◌, str_eq, String, ◌≡◌, refl, Bool, false, ◌&&◌, if◌then◌else◌, string_eq, Bool-cases, inl,
  inr,
}
use rems.Services.Tax.Lines.{
  Float64, TaxConfiguration, OrderItemForTax, zero_value, rate_on_top, rate_included,
}
use rems.Prelude.Dict.{Dict}
use rems.Services.Tax.Category.{FlagValue, is_flag_true, determine_tax_category}

module _ (F : Float64) where
  -- The rate for an item, by what it is and by whether the order leaves the house: one for alcohol,
  -- one for what is taken away, none for what is exempt, and the default for all else.
  abbrev pub rate_due : TaxConfiguration F → Bool → OrderItemForTax F → F.Value
  rate_due config leaves item =
      if str_eq item.tax_category "exempt"
      then zero_value F
      else if str_eq item.tax_category "alcohol"
      then config.alcohol_tax_rate
      else if leaves && str_eq item.tax_category "takeaway"
      then config.takeaway_tax_rate
      else config.default_tax_rate

  abbrev pub is_taken : String → Bool
  is_taken order_type = str_eq order_type "takeaway" || str_eq order_type "delivery"

  rate_on_top-rate_due :
      (config : TaxConfiguration F) (order_type : String) (item : OrderItemForTax F)
      → rate_on_top F config order_type item ≡ rate_due config (is_taken order_type) item
  unfolding rate_on_top
  rate_on_top-rate_due config order_type item =
      elim (Bool-cases (str_eq item.tax_category "exempt")) [
        | inl x ↦
            let same = (string_eq.beq_iff item.tax_category "exempt").0 x in
            rw (same, rate_on_top) refl
        | inr x ↦ elim (Bool-cases (str_eq item.tax_category "alcohol")) [
          | inl a ↦ rw (x, a, rate_on_top) refl
          | inr a ↦ elim (Bool-cases (str_eq item.tax_category "takeaway")) [
            | inl y ↦ elim (Bool-cases (is_taken order_type)) [
              | inl z ↦ rw (x, a, y, z, rate_on_top) refl
              | inr z ↦ rw (x, a, y, z, rate_on_top) refl
            ]
            | inr y ↦ elim (Bool-cases (is_taken order_type)) [
              | inl z ↦ rw (x, a, y, z, rate_on_top) refl
              | inr z ↦ rw (x, a, y, z, rate_on_top) refl
            ]
          ]
        ]
      ]

  rate_included-rate_due :
      (config : TaxConfiguration F) (item : OrderItemForTax F)
      → rate_included F config item ≡ rate_due config false item
  unfolding rate_included
  rate_included-rate_due config item = elim (Bool-cases (str_eq item.tax_category "exempt")) [
    | inl x ↦
        let same = (string_eq.beq_iff item.tax_category "exempt").0 x in
        rw (same, rate_included) refl
    | inr x ↦ elim (Bool-cases (str_eq item.tax_category "alcohol")) [
      | inl a ↦ rw (x, a, rate_included) refl
      | inr a ↦ rw (x, a, rate_included) refl
    ]
  ]

  pub rate_on_top-eq :
      (config : TaxConfiguration F) (order_type : String)
      → rate_on_top F config order_type ≡ rate_due config (is_taken order_type)
  rate_on_top-eq config order_type k item = rate_on_top-rate_due config order_type item k

  pub rate_included-eq :
      (config : TaxConfiguration F) → rate_included F config ≡ rate_due config false
  rate_included-eq config k item = rate_included-rate_due config item k

  -- An item with the category of its menu item's flags is taxed, where tax comes on top, at the
  -- alcohol rate if it is flagged as alcohol, not at all if it is only flagged as exempt, at the
  -- takeaway rate if it is only flagged for takeaway and the order is a takeaway or a delivery, and
  -- at the default rate otherwise.
  pub rate_on_top-determine_tax_category :
      (config : TaxConfiguration F) (order_type : String) (flags : Dict String FlagValue)
      (item : OrderItemForTax F)
      → item.tax_category ≡ determine_tax_category flags
      → let leaves = str_eq order_type "takeaway" || str_eq order_type "delivery" in
        rate_on_top F config order_type item ≡ (
          if is_flag_true flags "alcohol"
          then config.alcohol_tax_rate
          else if is_flag_true flags "tax_exempt"
          then zero_value F
          else if is_flag_true flags "takeaway_eligible" && leaves
          then config.takeaway_tax_rate
          else config.default_tax_rate)
  unfolding determine_tax_category rate_on_top
  rate_on_top-determine_tax_category config order_type flags item h =
      elim (Bool-cases (is_flag_true flags "alcohol")) [
        | inl a ↦ rw (h, determine_tax_category, a) refl
        | inr a ↦ elim (Bool-cases (is_flag_true flags "tax_exempt")) [
          | inl x ↦ rw (h, determine_tax_category, a, x) refl
          | inr x ↦ elim (Bool-cases (is_flag_true flags "takeaway_eligible")) [
            | inl y ↦ rw (h, determine_tax_category, a, x, y) refl
            | inr y ↦ rw (h, determine_tax_category, a, x, y) refl
          ]
        ]
      ]
