-- ===== src/Trader/Tools/Market.antt =====
-- The tools of tools.py that read market data: `get_movers`, `scan_universe`, `get_most_actives`,
-- `get_snapshots`, `get_bars`, `get_news` and `check_symbol`.
pub mod Reads
use infra_lab.Base.{
  ℕ, ◌+◌, String, Bool, true, false, not, Option, none, some, List, [], ◌∷◌, ◌++◌, if◌then◌else◌,
  contains, Result, ok, err, http, type_error, Exec,
}
use infra_lab.Base.Int.{ℤ, pos, min_ℤ}
use infra_lab.Base.Stateful.{pure, raise, lift, attempt, ◌>>=◌}
use infra_lab.Base.Text.{◌<>◌}
use infra_lab.Base.Number.{Number, of_ℕ, truthy}
use infra_lab.Base.Json.{Json, Fields, end, field, null, bool, num, str, arr, obj}
use infra_lab.Base.Dynamic.{or_null, dict_of}
use infra_lab.Trader.Config.{Params, int_value}
use infra_lab.Trader.Guardrails.{Reason}
use infra_lab.Trader.World.{
  World, Run, Query, send, query, movers, most_actives, quotes, candles, news,
}
use infra_lab.Trader.Store.{get_json}
use infra_lab.Trader.Tools.{Context, float_of, symbol_of, universe}
use infra_lab.Trader.Tools.Format.{
  timeframes, timeframe_text, clamp, items_of, symbols_of, get, or_dict, or_else, dear_movers,
  active_symbols, compact_all, bars_table, headlines, window,
}
use infra_lab.Trader.Tools.Screen.{
  Row, batches, batch_text, sequence, add_prior, judge_all, sort_rows, first_rows, row_members,
  count_fields,
}

-- What `scan_universe` has after some batches.
pub record Scan (F : Type 0) : Type 0 where
  pub rows : List (Row F)
  pub scanned : ℕ
  pub feed : String

abbrev text_or_null : {F : Type 0} → Option String → Json F
text_or_null none = null
text_or_null (some s) = str s

abbrev passes : Reason → Bool
passes none = true
passes (some reason) = false

module _ {F : Type 0} ⦃number : Number F⦄ (w : World F) (prefix : String) (ctx : Context) where
  abbrev fetch : Query F → Exec (Run F) (Json F)
  fetch q = send (query q) (λ h. w.query h q)

  unfoldable pub get_movers : Params F → Json F → Exec (Run F) (Json F)
  unfolding int_value
  get_movers params top = do
    n ← lift (int_value top)
    found ← fetch (movers (min_ℤ n (pos 50)))
    lift (dear_movers params.min_price found)

  unfoldable pub get_most_actives : Json F → Exec (Run F) (Json F)
  unfolding int_value
  get_most_actives top = do
    n ← lift (int_value top)
    found ← fetch (most_actives (min_ℤ n (pos 50)))
    lift (active_symbols found)

  unfoldable pub get_snapshots : Json F → Exec (Run F) (Json F)
  get_snapshots symbols = do
    names ← lift (symbols_of symbols)
    found ← fetch (quotes names "iex")
    lift (compact_all found)

  -- For a timeframe that there is.
  unfoldable pub bars_in : Json F → String → Json F → Json F → Exec (Run F) (Json F)
  unfolding int_value
  bars_in symbols timeframe start limit = do
    n ← lift (int_value limit)
    today ← lift (w.days_before ctx.day 0)
    span ← lift (window (w.days_before ctx.day) (w.open_time ctx.day) timeframe start)
    names ← lift (symbols_of symbols)
    found ← fetch (candles names timeframe span.0 span.1.0 10000 span.1.1)
    lift (bars_table (clamp n) found)

  abbrev no_timeframe : Json F
  no_timeframe = obj (field "error" (str timeframe_text) end)

  -- A list or a dict is in no set: it cannot be hashed.
  unfoldable pub get_bars : Json F → Json F → Json F → Json F → Exec (Run F) (Json F)
  unfolding bars_in
  get_bars symbols (str timeframe) start limit =
      if contains timeframes timeframe
      then bars_in symbols timeframe start limit
      else pure no_timeframe
  get_bars symbols (arr vs) start limit = raise type_error
  get_bars symbols (obj d) start limit = raise type_error
  get_bars symbols timeframe start limit = pure no_timeframe

  unfoldable pub get_news : Json F → Json F → Exec (Run F) (Json F)
  unfolding int_value
  get_news symbols limit = do
    start ← lift (w.days_before ctx.day 2)
    names ← lift (symbols_of symbols)
    n ← lift (int_value limit)
    found ← fetch (news names (min_ℤ n (pos 15)) start)
    lift (headlines found)

  unfoldable pub check_symbol : Params F → Json F → Exec (Run F) (Json F)
  unfolding symbol_of
  check_symbol params symbol = do
    name ← lift (symbol_of symbol)
    judged ← universe w prefix ctx params name
    pure (
        obj (
          field "passes" (bool (passes judged.0))
            (field "reject_reason" (text_or_null judged.0) judged.1.1)))

  -- The loop of `_prior_daily_bars` over the batches.
  unfoldable pub prior_batches :
      String → String → Fields F → List (List (Json F)) → Exec (Run F) (Fields F)
  unfolding add_prior batch_text
  prior_batches start last_day prior [] = pure prior
  prior_batches start last_day prior (batch ∷ rest) = do
    names ← lift (batch_text batch)
    raw ← fetch (candles names "1Day" (str start) (str last_day) 10000 "sip")
    next ← lift (add_prior prior raw)
    prior_batches start last_day next rest

  unfoldable pub prior_daily_bars : Json F → Exec (Run F) (Fields F)
  unfolding prior_batches batches
  prior_daily_bars symbols = do
    today ← lift (w.days_before ctx.day 0)
    yesterday ← lift (w.days_before ctx.day 1)
    week_ago ← lift (w.days_before ctx.day 7)
    items ← lift (sequence symbols)
    prior_batches (week_ago <> "T00:00:00Z") (yesterday <> "T23:59:59Z") end (batches items)

  -- The snapshots of a batch, from the other feed after an AlpacaError; with the feed from then on.
  unfoldable pub after_quotes : String → String → Result (Json F) → Exec (Run F) (Json F × String)
  after_quotes names feed (ok snaps) = pure (snaps, feed)
  after_quotes names feed (err (http status body)) = do
    snaps ← fetch (quotes names "iex")
    pure (snaps, "iex")
  after_quotes names feed (err e) = raise e

  -- The loop of `scan_universe` over the batches.
  unfoldable pub scan_batches :
      Params F → Fields F → Json F → Scan F → List (List (Json F)) → Exec (Run F) (Scan F)
  unfolding after_quotes judge_all batch_text
  scan_batches params prior least scan [] = pure scan
  scan_batches params prior least scan (batch ∷ rest) = do
    names ← lift (batch_text batch)
    outcome ← attempt (fetch (quotes names "delayed_sip"))
    found ← after_quotes names scan.feed outcome
    snaps ← lift (dict_of found.0)
    more ← lift (judge_all w.date_of ctx.day params.min_price float_of least prior snaps)
    scan_batches params prior least
        (record {
          rows = scan.rows ++ more;
          scanned = scan.scanned + count_fields snaps;
          feed = found.1;
        })
        rest

  abbrev candidates : Scan F → ℤ → Json F
  candidates scan n = obj (
      field "feed" (str scan.feed) (
        field "scanned" (num (of_ℕ scan.scanned)) (
          field "candidates" (arr (items_of (row_members (first_rows n (sort_rows scan.rows)))))
            end)))

  -- The scan of symbols that there are.
  unfoldable pub scan_symbols : Params F → Json F → Json F → Json F → Exec (Run F) (Json F)
  unfolding prior_daily_bars scan_batches sort_rows first_rows int_value
  scan_symbols params symbols least top = do
    prior ← prior_daily_bars symbols
    items ← lift (sequence symbols)
    scan ←
        scan_batches params prior least (record { rows = []; scanned = 0; feed = "delayed_sip" })
          (batches items)
    n ← lift (int_value top)
    pure (candidates scan n)

  unfoldable pub scan_universe : Params F → Json F → Json F → Exec (Run F) (Json F)
  unfolding scan_symbols
  scan_universe params least top = do
    universe ← get_json w prefix (ctx.config_root <> "universe.json") none true
    symbols ← lift (get "symbols" (or_dict (or_null universe)))
    if truthy (some symbols)
        then scan_symbols params symbols least top
        else pure (obj (field "error" (str "no universe configured") end))
