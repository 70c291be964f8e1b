-- ===== src/Trader/Tools/Orders.antt =====
-- `place_bracket_order` of tools.py.
use infra_lab.Base.{
  ℕ, ◌+◌, String, Bool, true, false, Option, none, some, if◌then◌else◌, ◌==◌, ◌&&◌, Result, ok, err,
  http, Exec,
}
use infra_lab.Base.Stateful.{pure, raise, lift, gets, modify, attempt, ◌>>=◌, ◌>>◌}
use infra_lab.Base.Text.{◌<>◌, split, join, has_text, show_ℕ}
use infra_lab.Base.Number.{Number, of_ℕ, truthy, to_float}
use infra_lab.Base.Json.{Json, Fields, end, field, bool, num, str, obj, member}
use infra_lab.Trader.Config.{Params}
use infra_lab.Trader.Guardrails.{Sizing, Verdict, enter, refuse, EntryFacts, evaluate_entry}
use infra_lab.Trader.World.{
  World, Run, Order, send, account, positions, clock, now_et, submit_order,
}
use infra_lab.Trader.Tools.{
  or_null, Context, float_of, symbol_of, alpaca_message, held_symbols_of, pending_symbols_of,
  journal, orders_today, active_orders, universe,
}

module _ {F : Type 0} ⦃number : Number F⦄ where
  -- `_f(value) or 0`
  abbrev pub or_zero : Option F → F
  or_zero none = of_ℕ 0
  or_zero (some x) = if number.is_zero x then of_ℕ 0 else x

  -- `**sizing`, in front of the fields that follow
  abbrev pub sizing_fields : Sizing F → Fields F → Fields F
  sizing_fields s rest = field "qty" (num (number.of_ℤ s.qty)) (
      field "entry" (num s.entry) (
        field "stop" (num s.stop) (
          field "target" (num s.target)
            (field "risk_dollars" (num s.risk_dollars) (field "notional" (num s.notional) rest)))))

  -- `{"ok": False, name: message}`
  abbrev pub failure : String → String → Json F
  failure name message = obj (field "ok" (bool false) (field name (str message) end))

-- `cid`
unfoldable pub client_order_id : Context → String → String
unfolding split join show_ℕ
client_order_id ctx symbol =
    join "" (split b'-' ctx.day) <> ("-s" <> (show_ℕ ctx.slot <> ("-" <> symbol)))

-- The broker already has an order of this id: `exc.status == 422 and "unique" in str(exc.body)`.
unfoldable pub is_duplicate : ℕ → String → Bool
unfolding has_text
is_duplicate status body = status == 422 && has_text body "unique"

abbrev pub duplicate_message : String
duplicate_message =
    "an order for this symbol was already submitted in this slot today; wait for a later slot to re-enter"

module _ {F : Type 0} ⦃number : Number F⦄ (w : World F) (prefix : String) (ctx : Context) where
  -- `self.ctx.orders_run += 1`
  unfoldable pub count_order : Exec (Run F) (Unit {0})
  count_order = modify (λ s. record s { orders_run = s.orders_run + 1 })

  -- The facts for the guardrails, each read in the order of the code.
  unfoldable pub gather_facts : Params F → String → F → F → Exec (Run F) (EntryFacts F)
  gather_facts params symbol entry stop = do
    acct ← send account w.account
    held ← send positions w.positions
    active ← active_orders w prefix ctx
    judged ← universe w prefix ctx params symbol
    market ← send clock w.clock
    now ← send now_et (λ h. ok (w.now_et h))
    held_symbols ← lift (held_symbols_of held)
    run ← gets (λ s. s.orders_run)
    day ← orders_today w prefix ctx
    pure (record {
      market_open = truthy (member "is_open" market);
      now_et = now;
      start_equity = to_float (member "last_equity" acct);
      equity_now = or_zero (to_float (member "equity" acct));
      symbol = symbol;
      held_symbols = held_symbols;
      pending_symbols = pending_symbols_of active;
      orders_run = run;
      orders_day = day;
      universe_reason = judged.0;
      last_price = judged.1.0;
      entry = entry;
      stop = stop;
    })

  -- What follows the submission, by its outcome.
  unfoldable pub after_submit : Sizing F → String → Result (Fields F) → Exec (Run F) (Json F)
  unfolding count_order
  after_submit sizing cid (ok order) = do
    count_order
    journal w prefix ctx "result" (
        field "client_order_id" (str cid) (
          field "order_id" (or_null (member "id" order))
            (field "status" (or_null (member "status" order)) end)))
    pure (
        obj (
          field "ok" (bool true) (
            field "order_id" (or_null (member "id" order))
              (field "status" (or_null (member "status" order)) (sizing_fields sizing end)))))
  after_submit sizing cid (err (http status body)) =
      if is_duplicate status body
      then (do
        journal w prefix ctx "rejected"
            (field "client_order_id" (str cid) (field "reason" (str "duplicate order id") end))
        pure (failure "rejected_by_guardrail" duplicate_message))
      else do
        journal w prefix ctx "error" (
            field "client_order_id" (str cid)
              (field "error" (str (alpaca_message status body)) end))
        pure (failure "error" (alpaca_message status body))
  after_submit sizing cid (err e) = raise e

  -- An order that the guardrails let through.
  unfoldable pub place_sized : String → Sizing F → Exec (Run F) (Json F)
  unfolding count_order client_order_id
  place_sized symbol sizing = do
    let cid = client_order_id ctx symbol
    journal w prefix ctx "intent" (
        field "action" (str "bracket_buy")
          (field "client_order_id" (str cid) (sizing_fields sizing end)))
    if ctx.dry_run
        then (do
          count_order
          journal w prefix ctx "result"
              (field "client_order_id" (str cid) (field "simulated" (bool true) end))
          pure (
              obj (
                field "ok" (bool true) (field "simulated" (bool true) (sizing_fields sizing end)))))
        else do
          let order : Order F = record { symbol = symbol; sizing = sizing; client_order_id = cid }
          outcome ← attempt (send (submit_order order) (λ h. w.submit_order h order))
          after_submit sizing cid outcome

  unfoldable pub act_on : String → F → F → Verdict F → Exec (Run F) (Json F)
  act_on symbol entry stop (refuse reason) = do
    journal w prefix ctx "rejected" (
        field "symbol" (str symbol)
          (field "entry" (num entry) (field "stop" (num stop) (field "reason" (str reason) end))))
    pure (failure "rejected_by_guardrail" reason)
  act_on symbol entry stop (enter sizing) = place_sized symbol sizing

  unfoldable pub place_bracket_order : Params F → Json F → Json F → Json F → Exec (Run F) (Json F)
  place_bracket_order params raw_symbol entry_limit raw_stop = do
    symbol ← lift (symbol_of raw_symbol)
    entry ← lift (float_of entry_limit)
    stop ← lift (float_of raw_stop)
    facts ← gather_facts params symbol entry stop
    verdict ← lift (evaluate_entry params facts)
    act_on symbol entry stop verdict
