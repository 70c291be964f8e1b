-- ===== src/Trader/Tools/Positions.antt =====
-- `move_stop_to` and `close_position` of tools.py.
use infra_lab.Base.{
  String, Bool, true, ◌&&◌, ◌||◌, none, some, List, [], ◌∷◌, if◌then◌else◌, keep_if, lookup, Result,
  ok, err, http, Exec,
}
use infra_lab.Base.Stateful.{pure, raise, lift, attempt, ◌>>=◌, ◌>>◌}
use infra_lab.Base.Text.{split, join}
use infra_lab.Base.Number.{Number, text_of, to_float}
use infra_lab.Base.Json.{Json, end, field, bool, num, str, obj, member, is_str}
use infra_lab.Trader.Guardrails.{Reason, stop_move_reason}
use infra_lab.Trader.World.{
  World, Run, send, snapshots, replace_order, cancel_order, close_position as close_call,
}
use infra_lab.Trader.Tools.{
  Context, ActiveOrder, float_of, symbol_of, alpaca_message, price_of, journal, active_orders,
}
use infra_lab.Trader.Tools.Orders.{failure}
use infra_lab.Trader.Tools.{or_null}

abbrev pub without_spaces : String → String
without_spaces s = join "" (split 32 s)

module _ {F : Type 0} ⦃number : Number F⦄ where
  -- A protective stop of the symbol.
  pub is_stop_of : String → ActiveOrder F → Bool
  is_stop_of symbol o =
      is_str symbol (member "symbol" o.fields)
      && is_str "sell" (member "side" o.fields)
      && (is_str "stop" (member "type" o.fields) || is_str "stop_limit" (member "type" o.fields))

  pub is_of : String → ActiveOrder F → Bool
  is_of symbol o = is_str symbol (member "symbol" o.fields)

  pub id_of : ActiveOrder F → String
  id_of o = text_of (or_null (member "id" o.fields))

  abbrev success : Json F
  success = obj (field "ok" (bool true) end)

  abbrev simulated : Json F
  simulated = obj (field "ok" (bool true) (field "simulated" (bool true) end))

module _ {F : Type 0} ⦃number : Number F⦄ (w : World F) (prefix : String) (ctx : Context) where
  unfoldable pub after_replace : String → F → Result (Unit {0}) → Exec (Run F) (Json F)
  after_replace symbol new_stop (ok _) = do
    journal w prefix ctx "result" (
        field "action" (str "move_stop")
          (field "symbol" (str symbol) (field "new_stop" (num new_stop) end)))
    pure success
  after_replace symbol new_stop (err (http status body)) = do
    journal w prefix ctx "error"
        (field "symbol" (str symbol) (field "error" (str (alpaca_message status body)) end))
    pure (failure "error" (alpaca_message status body))
  after_replace symbol new_stop (err e) = raise e

  -- What follows the guardrail's answer for the first stop order of the symbol.
  unfoldable pub replace_stop : String → F → ActiveOrder F → Reason → Exec (Run F) (Json F)
  unfolding after_replace id_of
  replace_stop symbol new_stop order (some reason) = do
    journal w prefix ctx "rejected" (
        field "symbol" (str symbol)
          (field "new_stop" (num new_stop) (field "reason" (str reason) end)))
    pure (failure "rejected_by_guardrail" reason)
  replace_stop symbol new_stop order none = do
    journal w prefix ctx "intent" (
        field "action" (str "move_stop")
          (field "symbol" (str symbol) (field "new_stop" (num new_stop) end)))
    if ctx.dry_run then pure simulated else do
      let price = number.round2 new_stop
      outcome ←
          attempt
            (send (replace_order (id_of order) price) (λ h. w.replace_order h (id_of order) price))
      after_replace symbol new_stop outcome

  unfoldable pub move_first : String → F → List (ActiveOrder F) → Exec (Run F) (Json F)
  unfolding replace_stop
  move_first symbol new_stop [] = pure (failure "error" "no active stop order found")
  move_first symbol new_stop (order ∷ others) = do
    snaps ← send (snapshots (without_spaces symbol)) (λ h. w.snapshots h (without_spaces symbol))
    reason ← lift (
        stop_move_reason (to_float (member "stop_price" order.fields)) new_stop
          (price_of (lookup symbol snaps)))
    replace_stop symbol new_stop order reason

  unfoldable pub move_stop_to : Json F → Json F → Exec (Run F) (Json F)
  unfolding move_first is_stop_of
  move_stop_to raw_symbol raw_stop = do
    symbol ← lift (symbol_of raw_symbol)
    new_stop ← lift (float_of raw_stop)
    active ← active_orders w prefix ctx
    move_first symbol new_stop (keep_if (is_stop_of symbol) active)

  -- An AlpacaError of a cancellation is only logged.
  unfoldable pub swallow : Result (Unit {0}) → Exec (Run F) (Unit {0})
  swallow (ok _) = pure tt
  swallow (err (http status body)) = pure tt
  swallow (err e) = raise e

  unfoldable pub cancel_each : List (ActiveOrder F) → Exec (Run F) (Unit {0})
  unfolding swallow id_of
  cancel_each [] = pure tt
  cancel_each (o ∷ others) = do
    outcome ← attempt (send (cancel_order (id_of o)) (λ h. w.cancel_order h (id_of o)))
    swallow outcome
    cancel_each others

  unfoldable pub after_close : String → Result (Unit {0}) → Exec (Run F) (Json F)
  after_close symbol (ok _) = do
    journal w prefix ctx "result"
        (field "action" (str "close_position") (field "symbol" (str symbol) end))
    pure success
  after_close symbol (err (http status body)) = do
    journal w prefix ctx "error"
        (field "symbol" (str symbol) (field "error" (str (alpaca_message status body)) end))
    pure (failure "error" (alpaca_message status body))
  after_close symbol (err e) = raise e

  unfoldable pub close_position : Json F → Json F → Exec (Run F) (Json F)
  unfolding cancel_each after_close is_of
  close_position raw_symbol reason = do
    symbol ← lift (symbol_of raw_symbol)
    journal w prefix ctx "intent" (
        field "action" (str "close_position")
          (field "symbol" (str symbol) (field "why" reason end)))
    if ctx.dry_run then pure simulated else do
      active ← active_orders w prefix ctx
      cancel_each (keep_if (is_of symbol) active)
      outcome ← attempt (send (close_call symbol) (λ h. w.close_position h symbol))
      after_close symbol outcome
