-- ===== src/Services/Tax/Loops.antt =====
-- The loops of backend/services/business/Taxes.go as sums and lists over the items.
use rems.Prelude.{
  ℕ, suc, ◌≡◌, refl, sym, ap, ◌∙◌, Bool, true, false, not, some, List, [], ◌∷◌, ◌++◌, if◌then◌else◌,
  length, get_elem?, set, str_eq,
}
use rems.Services.Tax.Lines.{
  Float64, TaxConfiguration, OrderItemForTax, ItemTaxDetail, TaxBreakdown, zero_value, line_total,
  untaxed, add_lines,
}
use rems.Services.Tax.Calculate.{tax_item, tax_items, itemised}

-- The element after a prefix of a list.
get_elem?-append_length :
    {A : Type 0} (xs : List A) (y : A) (ys : List A)
    → get_elem? (xs ++ (y ∷ ys)) (length xs) ≡ some y
get_elem?-append_length [] y ys = refl
get_elem?-append_length (x ∷ xs) y ys = get_elem?-append_length xs y ys

set-append_length :
    {A : Type 0} (xs : List A) (y z : A) (ys : List A)
    → set (xs ++ (y ∷ ys)) (length xs) z ≡ (xs ++ (z ∷ [])) ++ ys
set-append_length [] y z ys = refl
set-append_length (x ∷ xs) y z ys = ap (λ l. x ∷ l) (set-append_length xs y z ys)

length-append_one : {A : Type 0} (xs : List A) (y : A) → length (xs ++ (y ∷ [])) ≡ suc (length xs)
length-append_one [] y = refl
length-append_one (x ∷ xs) y = ap suc (length-append_one xs y)

append_one_append :
    {A : Type 0} (xs : List A) (y : A) (ys : List A) → (xs ++ (y ∷ [])) ++ ys ≡ xs ++ (y ∷ ys)
append_one_append [] y ys = refl
append_one_append (x ∷ xs) y ys = ap (λ l. x ∷ l) (append_one_append xs y ys)

append_nil : {A : Type 0} (xs : List A) → xs ++ [] ≡ xs
append_nil [] = refl
append_nil (x ∷ xs) = ap (λ l. x ∷ l) (append_nil xs)

module _ (F : Float64) where
  -- Adding up, from left to right, a value of the items that a test selects.
  abbrev pub sum_where :
      (OrderItemForTax F → Bool)
      → (OrderItemForTax F → F.Value)
      → List (OrderItemForTax F)
      → F.Value
      → F.Value
  sum_where test value [] total = total
  sum_where test value (item ∷ items) total =
      sum_where test value items (if test item then F.add total (value item) else total)

  abbrev pub details_of :
      (OrderItemForTax F → ItemTaxDetail F) → List (OrderItemForTax F) → List (ItemTaxDetail F)
  details_of f [] = []
  details_of f (item ∷ items) = f item ∷ details_of f items

  abbrev pub is_alcohol : OrderItemForTax F → Bool
  is_alcohol item = str_eq item.tax_category "alcohol"

  abbrev pub is_standard : OrderItemForTax F → Bool
  is_standard item = not (is_alcohol item)

  abbrev pub subtotal_of : List (OrderItemForTax F) → F.Value
  subtotal_of items = sum_where (λ item. true) (line_total F) items (zero_value F)

  abbrev pub amount_of :
      (OrderItemForTax F → F.Value) → (F.Value → F.Value → F.Value) → OrderItemForTax F → F.Value
  amount_of rate tax item = tax (line_total F item) (rate item)

  abbrev pub taxed :
      (OrderItemForTax F → F.Value)
      → (F.Value → F.Value → F.Value)
      → OrderItemForTax F
      → ItemTaxDetail F
  taxed rate tax item = record (untaxed F item) {
    tax_rate = rate item;
    tax_amount = amount_of rate tax item;
  }

  add_lines_lem :
      (items : List (OrderItemForTax F)) (subtotal : F.Value) (details : List (ItemTaxDetail F))
      → add_lines F items (subtotal, details) ≡ (
        sum_where (λ item. true) (line_total F) items subtotal,
        details ++ details_of (untaxed F) items,
      )
  unfolding add_lines
  add_lines_lem [] subtotal details =
      ap (λ (l : List (ItemTaxDetail F)). (subtotal, l)) (sym (append_nil details))
  add_lines_lem (item ∷ items) subtotal details =
      add_lines_lem items (F.add subtotal (line_total F item)) (details ++ (untaxed F item ∷ []))
      ∙ ap
          (λ (l : List (ItemTaxDetail F)).
            (sum_where (λ x. true) (line_total F) items (F.add subtotal (line_total F item)), l))
          (append_one_append details (untaxed F item) (details_of (untaxed F) items))

  -- The breakdown that a tax loop over all items leaves.
  abbrev pub all_taxed :
      (OrderItemForTax F → F.Value)
      → (F.Value → F.Value → F.Value)
      → List (OrderItemForTax F)
      → List (ItemTaxDetail F)
      → TaxBreakdown F
      → TaxBreakdown F
  all_taxed rate tax items done b = record b {
    item_tax_breakdown = done ++ details_of (taxed rate tax) items;
    alcohol_tax_amount = sum_where is_alcohol (amount_of rate tax) items b.alcohol_tax_amount;
    standard_tax_amount = sum_where is_standard (amount_of rate tax) items b.standard_tax_amount;
    total_tax_amount = sum_where (λ item. true) (amount_of rate tax) items b.total_tax_amount;
  }

  if_not : {A : Type 0} (c : Bool) (x y : A) → (if c then y else x) ≡ (if not c then x else y)
  if_not true x y = refl
  if_not false x y = refl

  all_taxed_step :
      (rate : OrderItemForTax F → F.Value) (tax : F.Value → F.Value → F.Value) (i : ℕ)
      (item : OrderItemForTax F) (items : List (OrderItemForTax F)) (done : List (ItemTaxDetail F))
      (b : TaxBreakdown F)
      → all_taxed rate tax items
          (done ++ (taxed rate tax item ∷ []))
          (tax_item F rate tax i item (untaxed F item) b)
        ≡ all_taxed rate tax (item ∷ items) done b
  unfolding untaxed
  all_taxed_step rate tax i item items done b k =
      let amount = amount_of rate tax item in
      record b {
        item_tax_breakdown =
            append_one_append done (taxed rate tax item) (details_of (taxed rate tax) items) k;
        alcohol_tax_amount =
            sum_where is_alcohol (amount_of rate tax) items
              (if is_alcohol item then F.add b.alcohol_tax_amount amount else b.alcohol_tax_amount);
        standard_tax_amount =
            sum_where is_standard (amount_of rate tax) items (
              if_not (is_alcohol item) (F.add b.standard_tax_amount amount) b.standard_tax_amount
                k);
        total_tax_amount =
            sum_where (λ x. true) (amount_of rate tax) items (F.add b.total_tax_amount amount);
      }

  -- The tax loop, from the item after those that are done: no index is out of range.
  pub tax_items_lem :
      (rate : OrderItemForTax F → F.Value) (tax : F.Value → F.Value → F.Value) (i : ℕ)
      (items : List (OrderItemForTax F)) (done : List (ItemTaxDetail F)) (b : TaxBreakdown F)
      → i ≡ length done
      → b.item_tax_breakdown ≡ done ++ details_of (untaxed F) items
      → tax_items F rate tax i items b ≡ some (all_taxed rate tax items done b)
  unfolding tax_items untaxed line_total
  tax_items_lem rate tax i [] done b at h = λ k. some (record b { item_tax_breakdown = h k })
  tax_items_lem rate tax i (item ∷ items) done b at h =
      let found : get_elem? b.item_tax_breakdown i ≡ some (untaxed F item) =
        rw (h, at) (get_elem?-append_length done (untaxed F item) (details_of (untaxed F) items)) in
      let b' = tax_item F rate tax i item (untaxed F item) b in
      let t = taxed rate tax item in
      let placed : b'.item_tax_breakdown ≡ (done ++ (t ∷ [])) ++ details_of (untaxed F) items =
        rw (h, at) (set-append_length done (untaxed F item) t (details_of (untaxed F) items)) in
      rw (found, tax_items)
        (tax_items_lem rate tax (suc i) items (done ++ (t ∷ [])) b'
            (ap suc at ∙ sym (length-append_one done t)) placed
          ∙ ap some (all_taxed_step rate tax i item items done b))

  -- The breakdown before any tax.
  abbrev pub before_tax : TaxConfiguration F → List (OrderItemForTax F) → TaxBreakdown F
  before_tax config items = record {
    subtotal_before_tax = subtotal_of items;
    service_charge_amount = zero_value F;
    taxable_amount = zero_value F;
    total_tax_amount = zero_value F;
    grand_total = zero_value F;
    standard_tax_amount = zero_value F;
    alcohol_tax_amount = zero_value F;
    tax_included_in_price = config.tax_inclusive_pricing;
    tax_rate = zero_value F;
    item_tax_breakdown = details_of (untaxed F) items;
  }

  pub itemised_lem :
      (config : TaxConfiguration F) (items : List (OrderItemForTax F))
      → itemised F config items ≡ before_tax config items
  unfolding itemised
  itemised_lem config items k =
      let (subtotal, details) = add_lines_lem items (zero_value F) [] k in
      record (before_tax config items) {
        subtotal_before_tax = subtotal;
        item_tax_breakdown = details;
      }
