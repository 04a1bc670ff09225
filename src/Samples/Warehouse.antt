-- ===== src/Samples/Warehouse.antt =====
-- A simulator with a warehouse and one shipment.
use mathlib.Core.Path.{subst}
use sentinel_chain.Base.{ℕ, ◌+◌, ◌≡◌, String, true, none, some, [], ◌∷◌, All}
use sentinel_chain.Base.Int.{pos}
use sentinel_chain.Base.Result.{Result, ok}
use sentinel_chain.Samples.{micro}
use sentinel_chain.Simulator.Models.{Shipment, Inventory}
use sentinel_chain.Simulator.Decisions.{Random}
use sentinel_chain.Simulator.Tick.{World, SimState}
use sentinel_chain.Simulator.Tick.Invariant.{SampleLaws}
use sentinel_chain.Simulator.Seed.Data.{SeedIds}

-- A generator that draws the least float of a range, 0 for `random()`, and the whole list.
abbrev pub lowest : Random micro
lowest = record {
  Rng = ℕ;
  uniform = λ lo hi n. (lo, n + 1);
  random = λ n. (pos 0, n + 1);
  sample = λ xs k n. (ok xs, n + 1);
}

ok_inj : {E A : Type 0} {a b : A} → ◌≡◌ {A = Result E A} (ok a) (ok b) → a ≡ b
ok_inj h = cc

pub lowest_laws : SampleLaws lowest
lowest_laws = record { sample-All = λ P xs ys k n h same. subst (All P) (ok_inj same) h }

abbrev pub world : World micro String
world = record {
  random = lowest;
  tick_seconds = pos 2000000;
  Env = ℕ;
  utcnow = λ n. ((pos 1700000100000000, true), n);
  uuid4 = λ n. ("uuid", n + 1);
  round4 = λ x. x;
  try_commit = λ rows n. (ok tt, n);
}

abbrev pub last_leg : Shipment micro
last_leg = record {
  shipment_id = "s1";
  purchase_order_id = "o1";
  supplier_id = "p1";
  origin_facility_id = "f1";
  destination_warehouse_id = "w1";
  status = "out_for_delivery";
  transport_mode = "road";
  planned_departure_at = none;
  planned_arrival_at = none;
  estimated_arrival_at = some (pos 1700000000000000, true);
  actual_arrival_at = none;
  shipment_value = none;
  updated_at = (pos 1600000000000000, true);
}

abbrev pub stock : Inventory micro
stock = record {
  warehouse_id = "w1";
  product_id = "p1";
  quantity_on_hand = pos 10000000;
  average_daily_usage = pos 86400000000;
  safety_stock = pos 1000000;
  updated_at = (pos 1600000000000000, true);
}

abbrev pub before_tick : SimState world
before_tick = record {
  rows = record {
    suppliers = [];
    facilities = [];
    products = [];
    warehouses = [];
    routes = [];
    purchase_orders = [];
    shipments = last_leg ∷ [];
    shipment_events = [];
    inventory = stock ∷ [];
    supplier_aliases = [];
  };
  committed = record {
    suppliers = [];
    facilities = [];
    products = [];
    warehouses = [];
    routes = [];
    purchase_orders = [];
    shipments = last_leg ∷ [];
    shipment_events = [];
    inventory = stock ∷ [];
    supplier_aliases = [];
  };
  rng = 0;
  env = 0;
  row_writes = [];
  ticks = 0;
}

-- Identifiers that are their names.
abbrev pub plain_ids : SeedIds micro
plain_ids = record { sid = λ name. name; date_of = λ d. "day" }
