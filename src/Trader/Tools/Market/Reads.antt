-- ===== src/Trader/Tools/Market/Reads.antt =====
-- The tools of tools.py that read market data change nothing at the broker.
use infra_lab.Base.{String, List, [], ◌∷◌, Result, ok, err, http}
use infra_lab.Base.Number.{Number}
use infra_lab.Base.Json.{Json, Fields, str, arr, obj, null}
use infra_lab.Trader.Config.{Params}
use infra_lab.Trader.World.{World}
use infra_lab.Trader.Tools.{Context}
use infra_lab.Trader.Tools.Quiet.{Quiet, quiet_rules}
use infra_lab.Trader.Tools.DryRun.{is_trade, get_json-Quiet, universe-Quiet}
use infra_lab.Trader.Tools.Market.{
  Scan, get_movers, get_most_actives, get_snapshots, bars_in, get_bars, get_news, check_symbol,
  prior_batches, prior_daily_bars, after_quotes, scan_batches, scan_symbols, scan_universe,
}

module _ {F : Type 0} ⦃number : Number F⦄ (w : World F) (prefix : String) (ctx : Context) where
  pub get_movers-Quiet :
      (params : Params F) (top : Json F) → Quiet is_trade (get_movers w prefix ctx params top)
  unfolding get_movers
  get_movers-Quiet params top = search quiet_rules depth 8

  pub get_most_actives-Quiet : (top : Json F) → Quiet is_trade (get_most_actives w prefix ctx top)
  unfolding get_most_actives
  get_most_actives-Quiet top = search quiet_rules depth 8

  pub get_snapshots-Quiet : (symbols : Json F) → Quiet is_trade (get_snapshots w prefix ctx symbols)
  unfolding get_snapshots
  get_snapshots-Quiet symbols = search quiet_rules depth 8

  bars_in-Quiet :
      (symbols : Json F) (timeframe : String) (start limit : Json F)
      → Quiet is_trade (bars_in w prefix ctx symbols timeframe start limit)
  unfolding bars_in
  bars_in-Quiet symbols timeframe start limit = search quiet_rules depth 14

  pub get_bars-Quiet :
      (symbols timeframe start limit : Json F)
      → Quiet is_trade (get_bars w prefix ctx symbols timeframe start limit)
  unfolding get_bars
  get_bars-Quiet symbols (str timeframe) start limit = search (quiet_rules, bars_in-Quiet)
  get_bars-Quiet symbols (arr vs) start limit = search quiet_rules
  get_bars-Quiet symbols (obj d) start limit = search quiet_rules
  get_bars-Quiet symbols null start limit = search quiet_rules
  get_bars-Quiet symbols _ start limit = search quiet_rules

  pub get_news-Quiet :
      (symbols limit : Json F) → Quiet is_trade (get_news w prefix ctx symbols limit)
  unfolding get_news
  get_news-Quiet symbols limit = search quiet_rules depth 12

  pub check_symbol-Quiet :
      (params : Params F) (symbol : Json F)
      → Quiet is_trade (check_symbol w prefix ctx params symbol)
  unfolding check_symbol
  check_symbol-Quiet params symbol = search (quiet_rules, universe-Quiet) depth 8

  prior_batches-Quiet :
      (start last_day : String) (prior : Fields F) (batches : List (List (Json F)))
      → Quiet is_trade (prior_batches w prefix ctx start last_day prior batches)
  unfolding prior_batches
  prior_batches-Quiet start last_day prior [] = search quiet_rules
  prior_batches-Quiet start last_day prior (batch ∷ rest) =
      let again : (next : Fields F)
          → Quiet is_trade (prior_batches w prefix ctx start last_day next rest) =
        λ next. prior_batches-Quiet start last_day next rest in
      search (quiet_rules, again) depth 10

  prior_daily_bars-Quiet :
      (symbols : Json F) → Quiet is_trade (prior_daily_bars w prefix ctx symbols)
  unfolding prior_daily_bars
  prior_daily_bars-Quiet symbols = search (quiet_rules, prior_batches-Quiet) depth 12

  after_quotes-Quiet :
      (names feed : String) (outcome : Result (Json F))
      → Quiet is_trade (after_quotes w prefix ctx names feed outcome)
  unfolding after_quotes
  after_quotes-Quiet names feed (ok snaps) = search quiet_rules
  after_quotes-Quiet names feed (err (http status body)) = search quiet_rules
  after_quotes-Quiet names feed (err _) = search quiet_rules

  scan_batches-Quiet :
      (params : Params F) (prior : Fields F) (least : Json F) (scan : Scan F)
      (batches : List (List (Json F)))
      → Quiet is_trade (scan_batches w prefix ctx params prior least scan batches)
  unfolding scan_batches
  scan_batches-Quiet params prior least scan [] = search quiet_rules
  scan_batches-Quiet params prior least scan (batch ∷ rest) =
      let again : (next : Scan F)
          → Quiet is_trade (scan_batches w prefix ctx params prior least next rest) =
        λ next. scan_batches-Quiet params prior least next rest in
      search (quiet_rules, after_quotes-Quiet, again) depth 14

  scan_symbols-Quiet :
      (params : Params F) (symbols least top : Json F)
      → Quiet is_trade (scan_symbols w prefix ctx params symbols least top)
  unfolding scan_symbols
  scan_symbols-Quiet params symbols least top =
      search (quiet_rules, prior_daily_bars-Quiet, scan_batches-Quiet) depth 12

  pub scan_universe-Quiet :
      (params : Params F) (least top : Json F)
      → Quiet is_trade (scan_universe w prefix ctx params least top)
  unfolding scan_universe
  scan_universe-Quiet params least top =
      search (quiet_rules, get_json-Quiet, scan_symbols-Quiet) depth 12
