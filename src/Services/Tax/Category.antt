-- ===== src/Services/Tax/Category.antt =====
-- The tax category of a menu item: backend/services/business/Taxes.go, `DetermineTaxCategory`.
use rems.Prelude.{String, Bool, false, none, some, if◌then◌else◌, str_eq, string_eq}
use rems.Prelude.Dict.{Dict, lookup}

-- A value of the menu item's JSON flags; `other` has the text that `%v` prints.
pub data FlagValue : Type 0 where
  bool : Bool → FlagValue
  text : String → FlagValue
  other : String → FlagValue

unfoldable pub is_flag_true : Dict String FlagValue → String → Bool
is_flag_true flags key = elim (lookup string_eq key flags) [
  | none ↦ false
  | some (bool b) ↦ b
  | some (text s) ↦ str_eq s "true"
  | some (other s) ↦ str_eq s "true"
]

unfoldable pub determine_tax_category : Dict String FlagValue → String
unfolding is_flag_true
determine_tax_category flags =
    if is_flag_true flags "alcohol"
    then "alcohol"
    else if is_flag_true flags "tax_exempt"
    then "exempt"
    else if is_flag_true flags "takeaway_eligible"
    then "takeaway"
    else "standard"
