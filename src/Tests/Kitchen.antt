-- ===== src/Tests/Kitchen.antt =====
-- An urgent ticket at the grill: backend/services/business/Kot.go.
use rems.Prelude.{◌≡◌, refl, String, Bool, true, none, [], ◌∷◌, ◌⊎◌}
use rems.Prelude.Int.{pos}
use rems.Fsm.Types.{Uuid}
use rems.Domain.Kot.{KotState}
use rems.Services.Exec.{Db}
use rems.Services.Kitchen.{
  KotRow, KotServiceRequest, KitchenRows, KotDraws, cancel_kot, try_auto_complete_kot,
}
use rems.Domain.Order.{confirmed}
use rems.Services.Kitchen.Create.{KotTexts, CreateKotInput, auto_route_station, station_of}
use rems.Services.Kitchen.Laws.{Refused, cancel_kot-Refused}
use rems.Services.Kitchen.Completion.{AllDone, CompletesOnly, try_auto_complete_kot-AllDone}

abbrev urgent_row : KotRow
urgent_row = record {
  kot_id = 20;
  order_id = 10;
  tenant_id = 9;
  restaurant_id = 4;
  kot_number = "KOT-20260101-0001";
  sequence_number = 1;
  order_number = "ORD-1";
  table_number = none;
  customer_name = "";
  order_type = "takeaway";
  guest_count = none;
  ticket = record { kot_id = "20"; priority = "urgent"; status = KotState.in_progress };
  created_by_user_id = 7;
  assigned_to_chef_id = none;
  print_count = 0;
  last_printed_at = none;
}

abbrev kitchen : Db KitchenRows
kitchen = record {
  faults = [];
  rows = record {
    kots = urgent_row ∷ [];
    items =
        record {
          kot_item_id = 21;
          kot_id = 20;
          order_item_id = 22;
          item_name = "soup";
          quantity = pos 1;
          notes = "";
          assigned_station = "general";
          status = "ready";
        }
        ∷ [];
    orders = [];
    employees = [];
    audit = [];
    spawned = [];
  };
}

abbrev chef : KotServiceRequest
chef = record { tenant_id = 9; restaurant_id = 4; actor_id = 7 }

abbrev evening : KotDraws
evening = record { now = 500; elapsed = 1; envelope_id = "e-9" }

abbrev allow_all : Uuid → Uuid → String → Bool
allow_all user tenant action = true

cancel_kot-Refused_example : Refused (cancel_kot evening allow_all true chef 20 kitchen) kitchen
cancel_kot-Refused_example =
    cancel_kot-Refused evening allow_all true chef 20 urgent_row kitchen refl refl refl

try_auto_complete_kot-AllDone_example :
    let after = (try_auto_complete_kot evening chef 20 kitchen).1.rows.kots in
    (after ≡ kitchen.rows.kots)
    ⊎ (AllDone 20 kitchen.rows.items × CompletesOnly 20 kitchen.rows.kots after)
try_auto_complete_kot-AllDone_example = try_auto_complete_kot-AllDone evening chef 20 kitchen

abbrev plain_texts : KotTexts
plain_texts = record {
  to_lower = λ s. s;
  trim_space = λ s. s;
  uuid_text = λ id. "id";
  order_number = λ id. "ORD-1";
  kot_number = λ t n. "KOT-1";
  unix_nano = λ t. t;
}

abbrev soup_order : CreateKotInput
soup_order = record {
  request = chef;
  order_id = 11;
  table_number = none;
  customer_name = "Asha";
  order_type = "takeaway";
  guest_count = none;
  priority = "";
  items =
      record {
        kot_item_id = 23;
        order_item_id = 24;
        item_name = "soup";
        quantity = pos 2;
        notes = "";
        assigned_station = "";
      }
      ∷ [];
}

abbrev with_order : Db KitchenRows
with_order = record kitchen {
  rows = record kitchen.rows {
    orders =
        record {
          order_id = 11;
          tenant_id = 9;
          restaurant_id = 4;
          order = record { order_id = "11"; total_amount = pos 500; status = confirmed };
        }
        ∷ [];
  };
}

-- A steak is sent to the bar.
steak_station : auto_route_station plain_texts "steak" ≡ "beverage"
unfolding station_of
steak_station = refl
