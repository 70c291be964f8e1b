-- ===== src/Trader/Tools.antt =====
-- The tools of the model: `RunContext` and class `Toolbox` of tools.py. This file has the journal and
-- the reads that the writes rest on; the children have the writes, the reads of market data and `call`.
pub mod Orders
pub mod Positions
pub mod Records
pub mod Format
pub mod Screen
pub mod Market
pub mod Dispatch
pub mod Bind
pub mod Quiet
pub mod DryRun
pub mod Simulated
pub mod Safety
use infra_lab.Base.{
  ℕ, ◌+◌, String, Bool, true, false, not, ◌&&◌, ◌||◌, Option, none, some, List, [], ◌∷◌, ◌++◌, map,
  if◌then◌else◌, is_empty, count_if, keep_if, lookup, PyError, Result, ok, err, http, key_error,
  type_error, value_error, attribute_error, or_raise, Exec,
}
use infra_lab.Base.Stateful.{pure, raise, lift, gets, attempt, ◌>>=◌, ◌>>◌}
use infra_lab.Base.Text.{◌<>◌, upper, strip, split, join, has_text, take_text, show_ℕ}
use infra_lab.Base.Number.{Number, of_ℕ, text_of, get_text, truthy, to_float}
pub use infra_lab.Base.Dynamic.{or_null}
use infra_lab.Base.Json.{Json, Fields, end, field, null, bool, num, str, member, is_str}
use infra_lab.Trader.Config.{Params}
use infra_lab.Trader.Guardrails.{Reason, is_active_status, is_falsy, universe_reject_reason}
use infra_lab.Trader.World.{
  World, Run, Call, OrderTree, Bar, Snap, Entry, send, orders, asset, bars, snapshots, now_iso,
}
use infra_lab.Trader.Store
use infra_lab.Trader.Store.{splitlines, last, or_empty}

-- The fixed part of `RunContext`; its counters are in `Run`.
pub record Context : Type 0 where
  pub slot : ℕ
  pub day : String
  pub dry_run : Bool
  pub ntfy_topic : String
  pub strategy : String
  pub config_root : String

-- `ctx.label`
unfoldable pub label : Context → String
unfolding upper
label ctx = upper ctx.strategy

abbrev pub journal_key : Context → String
journal_key ctx = "journal/" <> (ctx.day <> ".jsonl")

-- The text that `_orders_today` looks for in a line of the journal.
abbrev pub intent_mark : String
intent_mark = "\"type\": \"intent\""

-- An order that is live or pending, with the id of its parent where it is a leg.
pub record ActiveOrder (F : Type 0) : Type 0 where
  pub fields : Fields F
  pub parent_order_id : Option (Json F)

-- `str(exc)` of an AlpacaError
unfoldable pub alpaca_message : ℕ → String → String
unfolding take_text show_ℕ
alpaca_message status body = "Alpaca HTTP " <> (show_ℕ status <> (": " <> take_text 300 body))

module _ {F : Type 0} ⦃number : Number F⦄ where
  -- `float(value)`
  unfoldable pub float_of : Json F → Result F
  float_of (str s) = or_raise value_error (number.parse s)
  float_of v = or_raise type_error (to_float (some v))

  -- `symbol.upper().strip()`: a value that is no text has no method `upper`.
  unfoldable pub symbol_of : Json F → Result String
  unfolding upper strip
  symbol_of (str s) = ok (strip (upper s))
  symbol_of v = err attribute_error

  flat_tree : OrderTree F → List (ActiveOrder F)
  flat_tree tree =
      record { fields = tree.parent; parent_order_id = member "parent_order_id" tree.parent }
      ∷ map (λ leg. record { fields = leg; parent_order_id = member "id" tree.parent }) tree.legs

  flat_orders : List (OrderTree F) → List (ActiveOrder F)
  flat_orders [] = []
  flat_orders (tree ∷ trees) = flat_tree tree ++ flat_orders trees

  is_active : ActiveOrder F → Bool
  is_active o = is_active_status (get_text "status" "None" o.fields)

  unfoldable pub active_orders_of : List (OrderTree F) → List (ActiveOrder F)
  unfolding flat_tree flat_orders is_active
  active_orders_of trees = keep_if is_active (flat_orders trees)

  -- A buy that is no leg of another order.
  is_pending_buy : ActiveOrder F → Bool
  is_pending_buy o = is_str "buy" (member "side" o.fields) && not (truthy o.parent_order_id)

  unfoldable pub pending_symbols_of : List (ActiveOrder F) → List String
  unfolding is_pending_buy
  pending_symbols_of active =
      map (λ o. get_text "symbol" "None" o.fields) (keep_if is_pending_buy active)

  -- `{p["symbol"] for p in positions}`
  unfoldable pub held_symbols_of : List (Fields F) → Result (List String)
  held_symbols_of [] = ok []
  held_symbols_of (p ∷ ps) = elim (member "symbol" p) [
    | none ↦ err key_error
    | some v ↦ elim (held_symbols_of ps) [ ok rest ↦ ok (text_of v ∷ rest) | err e ↦ err e ]
  ]

  -- `latestTrade.p or dailyBar.c`
  abbrev pub price_of : Option (Snap F) → Option F
  price_of none = none
  price_of (some snap) = if is_falsy snap.latest then snap.daily_close else snap.latest

  -- `mean(...) if bars else None`
  abbrev pub mean_of : (Bar F → F) → List (Bar F) → Option F
  mean_of f [] = none
  mean_of f (b ∷ bs) = some (number.mean (map f (b ∷ bs)))

  -- A number or None
  abbrev pub num_or_null : Option F → Json F
  num_or_null none = null
  num_or_null (some x) = num x

  -- `round(x) if x else None`
  abbrev pub rounded : Option F → Result (Json F)
  rounded none = ok null
  rounded (some x) =
      if number.is_zero x
      then ok null
      else elim (number.round x) [ ok n ↦ ok (num (number.of_ℤ n)) | err e ↦ err e ]

  abbrev pub bars_or_none : Option (List (Bar F)) → List (Bar F)
  bars_or_none none = []
  bars_or_none (some bs) = bs

module _ {F : Type 0} ⦃number : Number F⦄ (w : World F) (prefix : String) (ctx : Context) where
  -- `self.journal(kind, **fields)`
  unfoldable pub journal : String → Fields F → Exec (Run F) (Unit {0})
  unfolding Store.append_jsonl
  journal kind fields = do
    ts ← send now_iso (λ h. ok (w.now_iso h))
    Store.append_jsonl w prefix (journal_key ctx)
        (record { ts = ts; slot = ctx.slot; kind = kind; fields = fields })

  unfoldable pub orders_today : Exec (Run F) ℕ
  unfolding Store.get_lines_text splitlines has_text
  orders_today = do
    text ← Store.get_lines_text w prefix (journal_key ctx)
    pure (count_if (λ line. has_text line intent_mark) (splitlines text))

  unfoldable pub active_orders : Exec (Run F) (List (ActiveOrder F))
  active_orders = do
    let after = ctx.day <> "T00:00:00Z"
    trees ← send (orders after) (λ h. w.orders h after)
    pure (active_orders_of trees)

  -- The rest of `_universe`, for an asset that is known: the reason, the price and the metrics.
  unfoldable pub universe_of :
      Params F → String → Fields F → Exec (Run F) (Reason × (Option F × Fields F))
  universe_of params symbol found = do
    history ← send (bars symbol) (λ h. w.bars h symbol)
    let recent = last 20 (bars_or_none (lookup symbol history))
    snaps ← send (snapshots symbol) (λ h. w.snapshots h symbol)
    let price = price_of (lookup symbol snaps)
    let volume = mean_of (λ b. b.volume) recent
    let dollars = mean_of (λ b. number.mul b.volume b.close) recent
    let reason = universe_reject_reason params found price volume dollars
    whole_volume ← lift (rounded volume)
    whole_dollars ← lift (rounded dollars)
    pure (
      reason,
      (
        price,
        field "symbol" (str symbol) (
            field "name" (or_null (member "name" found)) (
              field "price" (num_or_null price) (
                field "avg_volume_20d" whole_volume
                  (field "avg_dollar_volume_20d" whole_dollars end)))),
      ),
    )

  unfoldable pub after_asset :
      Params F → String → Result (Fields F) → Exec (Run F) (Reason × (Option F × Fields F))
  unfolding universe_of
  after_asset params symbol (ok found) = universe_of params symbol found
  after_asset params symbol (err (http status body)) = pure (some "unknown symbol", (none, end))
  after_asset params symbol (err e) = raise e

  -- `_universe`; the price stands beside the metrics, too.
  unfoldable pub universe : Params F → String → Exec (Run F) (Reason × (Option F × Fields F))
  unfolding after_asset
  universe params symbol = do
    found ← attempt (send (asset symbol) (λ h. w.asset h symbol))
    after_asset params symbol found
