-- ===== src/Trader/Tools/Dispatch.antt =====
-- `get_account`, `get_open_orders` and `call` of tools.py. A request is a tool with its arguments
-- already bound to the parameters of its method.
use infra_lab.Base.{
  ℕ, String, Option, some, List, [], ◌∷◌, map, if◌then◌else◌, ltb, Result, ok, err, http,
  type_error, value_error, key_error, Exec,
}
use infra_lab.Base.Stateful.{pure, raise, attempt, ◌>>=◌}
use infra_lab.Base.Text.{◌<>◌, take_text}
use infra_lab.Base.Number.{Number, to_float}
use infra_lab.Base.Json.{
  Json, Items, Fields, end, field, null, bool, num, str, arr, obj, none_left, item, member,
}
use infra_lab.Trader.Config.{Params}
use infra_lab.Trader.Guardrails.{daily_halt}
use infra_lab.Trader.World.{World, Run, send, account, positions}
use infra_lab.Trader.Tools.{
  or_null, num_or_null, Context, ActiveOrder, alpaca_message, active_orders,
}
use infra_lab.Trader.Tools.Orders.{place_bracket_order, or_zero}
use infra_lab.Trader.Tools.Positions.{move_stop_to, close_position}
use infra_lab.Trader.Tools.Market
use infra_lab.Trader.Tools.Records.{journal_note, save_evidence, save_handoff, send_report}

abbrev pub max_result_chars : ℕ
max_result_chars = 24000

pub data Tool (F : Type 0) : Type 0 where
  get_account get_positions get_open_orders : Tool F
  get_movers get_most_actives get_snapshots check_symbol : Json F → Tool F
  scan_universe get_news : Json F → Json F → Tool F
  get_bars : Json F → Json F → Json F → Json F → Tool F
  place : Json F → Json F → Json F → Tool F
  move_stop : Json F → Json F → Tool F
  close : Json F → Json F → Tool F
  note : String → Json F → Tool F
  evidence : Json F → Json F → Tool F
  handoff : Json F → Tool F
  report : Json F → Json F → Tool F
  unknown : String → Tool F
  -- a call whose keywords do not fit the parameters
  misfit : Tool F

module _ {F : Type 0} ⦃number : Number F⦄ where
  -- The members that `_active_orders` keeps, with None for those that an order lacks.
  pub kept : ActiveOrder F → Json F
  kept o =
      let get = λ (key : String). or_null (member key o.fields) in
      obj (
        field "id" (get "id") (
          field "symbol" (get "symbol") (
            field "side" (get "side") (
              field "type" (get "type") (
                field "status" (get "status") (
                  field "qty" (get "qty") (
                    field "limit_price" (get "limit_price") (
                      field "stop_price" (get "stop_price") (
                        field "parent_order_id" (or_null o.parent_order_id)
                          (field "client_order_id" (get "client_order_id") end))))))))))

  -- The members that `get_positions` keeps.
  pub kept_position : Fields F → Fields F
  kept_position p =
      let get = λ (key : String). or_null (member key p) in
      field "symbol" (get "symbol") (
        field "qty" (get "qty") (
          field "avg_entry_price" (get "avg_entry_price") (
            field "current_price" (get "current_price") (
              field "unrealized_pl" (get "unrealized_pl") (
                field "unrealized_plpc" (get "unrealized_plpc")
                  (field "market_value" (get "market_value") end))))))

  pub objects : List (Fields F) → Items F
  objects [] = none_left
  objects (d ∷ ds) = item (obj d) (objects ds)

  pub kept_all : List (ActiveOrder F) → Items F
  kept_all [] = none_left
  kept_all (o ∷ os) = item (kept o) (kept_all os)

  -- `round(equity - last, 2) if equity and last else None`
  abbrev day_pnl : Option F → Option F → Json F
  day_pnl (some equity) (some start) =
      if number.is_zero equity
      then null
      else if number.is_zero start
      then null
      else num (number.round2 (number.sub equity start))
  day_pnl equity start = null

module _ {F : Type 0} ⦃number : Number F⦄ (w : World F) (prefix : String) (ctx : Context) where
  unfoldable pub account_report : Params F → Exec (Run F) (Json F)
  account_report params = do
    acct ← send account w.account
    let equity = to_float (member "equity" acct)
    let start = to_float (member "last_equity" acct)
    pure (
        obj (
          field "equity" (num_or_null equity) (
            field "start_of_day_equity" (num_or_null start) (
              field "day_pnl" (day_pnl equity start) (
                field "cash" (num_or_null (to_float (member "cash" acct))) (
                  field "buying_power" (num_or_null (to_float (member "buying_power" acct))) (
                    field "daily_loss_limit_hit" (bool (daily_halt params start (or_zero equity)))
                      end)))))))

  unfoldable pub position_report : Exec (Run F) (List (Fields F))
  unfolding kept_position
  position_report = do held ← send positions w.positions; pure (map kept_position held)

  unfoldable pub open_orders : Exec (Run F) (Json F)
  unfolding kept kept_all
  open_orders = do active ← active_orders w prefix ctx; pure (arr (kept_all active))

  unfoldable pub run_tool : Params F → Tool F → Exec (Run F) (Json F)
  run_tool params get_account = account_report params
  run_tool params get_positions = do held ← position_report; pure (arr (objects held))
  run_tool params get_open_orders = open_orders
  run_tool params (get_movers top) = Market.get_movers w prefix ctx params top
  run_tool params (scan_universe least top) = Market.scan_universe w prefix ctx params least top
  run_tool params (get_most_actives top) = Market.get_most_actives w prefix ctx top
  run_tool params (get_snapshots symbols) = Market.get_snapshots w prefix ctx symbols
  run_tool params (get_bars symbols timeframe start limit) =
      Market.get_bars w prefix ctx symbols timeframe start limit
  run_tool params (get_news symbols limit) = Market.get_news w prefix ctx symbols limit
  run_tool params (check_symbol symbol) = Market.check_symbol w prefix ctx params symbol
  run_tool params (place symbol entry stop) =
      place_bracket_order w prefix ctx params symbol entry stop
  run_tool params (move_stop symbol stop) = move_stop_to w prefix ctx symbol stop
  run_tool params (close symbol reason) = close_position w prefix ctx symbol reason
  run_tool params (note kind text) = journal_note w prefix ctx kind text
  run_tool params (evidence name content) = save_evidence w prefix ctx name content
  run_tool params (handoff h) = save_handoff w prefix ctx h
  run_tool params (report title message) = send_report w prefix ctx title message
  run_tool params (unknown name) = pure (obj (field "error" (str ("unknown tool " <> name)) end))
  run_tool params misfit = raise type_error

  -- The two `except` clauses; the text of a Python error is not modelled.
  unfoldable pub caught : Result (Json F) → Exec (Run F) (Json F)
  caught (ok result) = pure result
  caught (err (http status body)) =
      pure (obj (field "error" (str (alpaca_message status body)) end))
  caught (err type_error) = pure (obj (field "error" (str "bad arguments: ") end))
  caught (err value_error) = pure (obj (field "error" (str "bad arguments: ") end))
  caught (err key_error) = pure (obj (field "error" (str "bad arguments: ") end))
  caught (err e) = raise e

  unfoldable pub shorten : String → String
  shorten text =
      if ltb max_result_chars (Prim.Native.String.count text)
      then take_text max_result_chars text <> "...\"truncated\""
      else text

  unfoldable pub call : Params F → Tool F → Exec (Run F) String
  unfolding caught shorten
  call params tool = do
    outcome ← attempt (run_tool params tool)
    result ← caught outcome
    pure (shorten (w.dumps result))
