-- ===== src/Trader/Tools/DryRun.antt =====
-- What the tools of tools.py do at the broker: nothing in a dry run.
use infra_lab.Base.{ok, err, http, String, Bool, true, false, Result, Option, none, some, Exec}
use infra_lab.Base.Stateful.{pure, lift, ◌>>=◌}
use infra_lab.Base.Number.{Number}
use infra_lab.Base.Json.{Json, Fields}
use infra_lab.Trader.World.{
  World, Run, Call, submit_order, replace_order, cancel_order, close_position, cancel_all_orders,
  close_all_positions,
}
use infra_lab.Trader.Store.{get_text, get_json, get_lines_text}
use infra_lab.Trader.Tools.{Context, journal, active_orders, universe, orders_today, after_asset}
use infra_lab.Trader.Tools.Orders.{gather_facts}
use infra_lab.Trader.Config.{Params}
use infra_lab.Trader.Tools.Quiet.{Quiet, quiet_rules, Quiet-bind}

-- The calls that change orders or positions at the broker.

abbrev pub is_trade : {F : Type 0} → Call F → Bool
is_trade (submit_order o) = true
is_trade (replace_order id price) = true
is_trade (cancel_order id) = true
is_trade (close_position symbol) = true
is_trade cancel_all_orders = true
is_trade close_all_positions = true
is_trade call = false

module _ {F : Type 0} ⦃number : Number F⦄ (w : World F) (prefix : String) where
  pub get_text-Quiet :
      (key : String) (default : Option String) (absolute : Bool)
      → Quiet is_trade (get_text w prefix key default absolute)
  unfolding get_text
  get_text-Quiet key default absolute = search quiet_rules depth 10

  parsed-Quiet :
      (default : Option (Json F)) (found : Option String)
      → Quiet is_trade (elim found as (λ _. Exec (Run F) (Option (Json F))) [
        | none ↦ pure default
        | some text ↦ (do v ← lift (w.loads text); pure (some v))
      ])
  parsed-Quiet default none = search quiet_rules
  parsed-Quiet default (some text) = search quiet_rules

  pub get_json-Quiet :
      (key : String) (default : Option (Json F)) (absolute : Bool)
      → Quiet is_trade (get_json w prefix key default absolute)
  unfolding get_json
  get_json-Quiet key default absolute =
      Quiet-bind _ _ (get_text-Quiet key none absolute) (parsed-Quiet default)

  get_lines_text-Quiet : (key : String) → Quiet is_trade (get_lines_text w prefix key)
  unfolding get_lines_text
  get_lines_text-Quiet key = search quiet_rules

  module _ (ctx : Context) where
    pub journal-Quiet :
        (kind : String) (fields : Fields F) → Quiet is_trade (journal w prefix ctx kind fields)
    unfolding journal
    journal-Quiet kind fields = search quiet_rules depth 12

    orders_today-Quiet : Quiet is_trade (orders_today w prefix ctx)
    unfolding orders_today
    orders_today-Quiet = search quiet_rules depth 12

    pub active_orders-Quiet : Quiet is_trade (active_orders w prefix ctx)
    unfolding active_orders
    active_orders-Quiet = search quiet_rules

    after_asset-Quiet :
        (params : Params F) (symbol : String) (found : Result (Fields F))
        → Quiet is_trade (after_asset w prefix ctx params symbol found)
    unfolding after_asset
    after_asset-Quiet params symbol (ok found) = search quiet_rules depth 8
    after_asset-Quiet params symbol (err (http status body)) = search quiet_rules
    after_asset-Quiet params symbol (err _) = search quiet_rules

    pub universe-Quiet :
        (params : Params F) (symbol : String) → Quiet is_trade (universe w prefix ctx params symbol)
    unfolding universe
    universe-Quiet params symbol = search (quiet_rules, after_asset-Quiet)

    -- Gathering the facts of an entry changes nothing at the broker.
    pub gather_facts-Quiet :
        (params : Params F) (symbol : String) (entry stop : F)
        → Quiet is_trade (gather_facts w prefix ctx params symbol entry stop)
    unfolding gather_facts
    gather_facts-Quiet params symbol entry stop =
        search (quiet_rules, orders_today-Quiet, active_orders-Quiet, universe-Quiet) depth 20
