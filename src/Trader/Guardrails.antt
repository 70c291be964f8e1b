-- ===== src/Trader/Guardrails.antt =====
-- The hard trading guardrails: the functions of guardrails.py.
pub mod Budget
pub mod Entry
use infra_lab.Base.{
  ℕ, suc, ◌+◌, ◌*◌, String, Bool, true, false, not, ◌&&◌, ◌||◌, Option, none, some, List, [], ◌∷◌,
  leb, ◌==◌, if◌then◌else◌, length, all, any, contains, union, str_eq, Result, ok, err, type_error,
}
use infra_lab.Base.Raise.{◌>>=◌}
use infra_lab.Base.Int.{ℤ, pos, min_ℤ, ltb_ℤ}
use infra_lab.Base.Text.{
  codes, upper, words, is_upper, before_newline, trim_end, has_prefix, is_blank,
}
use infra_lab.Base.Number.{Number, of_ℕ, divide, get_text, truthy}
use infra_lab.Base.Json.{Json, Fields, member, is_str}
use infra_lab.Trader.Config.{Clock, Params}

abbrev pub paper_base_url : String
paper_base_url = "https://paper-api.alpaca.markets"

abbrev pub paper_account_prefix : String
paper_account_prefix = "PA"

-- `_ACTIVE_ORDER_STATUSES`
abbrev pub active_order_statuses : List String
active_order_statuses =
    "new" ∷ "accepted" ∷ "held" ∷ "partially_filled" ∷ "pending_new" ∷ "pending_replace"
    ∷ "accepted_for_bidding" ∷ []

-- `_EXCLUDED_NAME_PATTERN`: between two word boundaries, one of these words in any case. The words
-- have only word characters, so a match is a maximal run of these.
abbrev pub excluded_words : List String
excluded_words =
    "WARRANT" ∷ "WARRANTS" ∷ "RIGHT" ∷ "RIGHTS" ∷ "UNIT" ∷ "UNITS" ∷ "PREFERRED" ∷ "NOTE" ∷ "NOTES"
    ∷ "2X" ∷ "3X" ∷ "ULTRA" ∷ "ULTRAPRO" ∷ "ULTRASHORT" ∷ "INVERSE" ∷ "LEVERAGED" ∷ "BULL" ∷ "BEAR"
    ∷ []

unfoldable pub is_excluded_name : String → Bool
unfolding upper words
is_excluded_name name = any (contains excluded_words) (words (upper name))

capitals : List ℕ → Bool
capitals cs = all is_upper cs && leb 1 (length cs) && leb (length cs) 5

-- `_SYMBOL_PATTERN.match`: one to five capitals; `$` lets a line feed stand behind them.
unfoldable pub is_symbol : String → Bool
unfolding capitals
is_symbol symbol = capitals (before_newline (codes symbol))

unfoldable pub is_active_status : String → Bool
is_active_status status = contains active_order_statuses status

-- What a check returns: a reason, or None.
abbrev pub Reason : Type 0
Reason = Option String

-- The sizing dict of a bracket order.
pub record Sizing (F : Type 0) : Type 0 where
  pub qty : ℤ
  pub entry : F
  pub stop : F
  pub target : F
  pub risk_dollars : F
  pub notional : F

-- What the entry checks return: a sizing and None, or None and a reason.
pub data Verdict (F : Type 0) : Type 0 where
  enter : Sizing F → Verdict F
  refuse : String → Verdict F

-- The `facts` of one entry. `now_et` is the time of day in microseconds.
pub record EntryFacts (F : Type 0) : Type 0 where
  pub market_open : Bool
  pub now_et : ℕ
  pub start_equity : Option F
  pub equity_now : F
  pub symbol : String
  pub held_symbols : List String
  pub pending_symbols : List String
  pub orders_run : ℕ
  pub orders_day : ℕ
  pub universe_reason : Reason
  pub last_price : Option F
  pub entry : F
  pub stop : F

abbrev pub micros : Clock → ℕ
micros t = (t.hour * 60 + t.minute) * 60 * 1000000

module _ {F : Type 0} ⦃number : Number F⦄ where
  unfoldable pub paper_check : String → Fields F → Reason
  unfolding trim_end has_prefix
  paper_check base_url account =
      if not (str_eq (trim_end (λ c. c == b'/') base_url) paper_base_url)
      then some "trading base URL is not the paper endpoint"
      else if not (has_prefix (get_text "account_number" "" account) paper_account_prefix)
      then some "account number does not look like a paper account"
      else none

  -- `not x`, for a number or None
  abbrev pub is_falsy : Option F → Bool
  is_falsy none = true
  is_falsy (some x) = number.is_zero x

  unfoldable pub daily_halt : Params F → Option F → F → Bool
  daily_halt params none equity_now = false
  daily_halt params (some start) equity_now =
      if number.is_zero start
      then false
      else number.le equity_now (number.mul start (number.sub (of_ℕ 1) params.daily_loss_halt_pct))

  -- `x is None or x < low`
  abbrev pub is_below : Option F → F → Bool
  is_below none low = true
  is_below (some x) low = number.lt x low

  unfoldable pub universe_reject_reason :
      Params F → Fields F → Option F → Option F → Option F → Reason
  universe_reject_reason params asset price avg_volume avg_dollar_volume =
      if not (is_symbol (get_text "symbol" "" asset))
      then some "symbol format not allowed"
      else if not (is_str "us_equity" (member "class" asset))
      then some "not a US equity or ETF"
      else if not (is_str "active" (member "status" asset))
          || not (truthy (member "tradable" asset))
      then some "not active and tradable"
      else if str_eq (upper (get_text "exchange" "" asset)) "OTC"
      then some "OTC symbol"
      else if is_excluded_name (get_text "name" "" asset)
      then some "excluded security type by name"
      else if is_below price params.min_price
      then some "price below minimum"
      else if is_below avg_volume params.min_avg_volume
      then some "average volume below minimum"
      else if is_below avg_dollar_volume params.min_avg_dollar_volume
      then some "average dollar volume below minimum"
      else none

  -- The sized order for a number of shares of at least one.
  abbrev pub sized : Params F → F → F → F → ℤ → Verdict F
  sized params entry stop per_share_risk qty =
      if ltb_ℤ qty (pos 1)
      then refuse "computed size is less than one share"
      else enter (record {
        qty = qty;
        entry = number.round2 entry;
        stop = number.round2 stop;
        target = number.round2 (number.add entry (number.mul params.reward_r per_share_risk));
        risk_dollars = number.round2 (number.mul (number.of_ℤ qty) per_share_risk);
        notional = number.round2 (number.mul (number.of_ℤ qty) entry);
      })

  -- `start_equity * share`, where the equity may be None
  abbrev pub times : Option F → F → Result F
  times none share = err type_error
  times (some start) share = ok (number.mul start share)

  unfoldable pub size_bracket : Params F → Option F → F → F → Result (Verdict F)
  size_bracket params start_equity entry stop =
      if not (number.lt (of_ℕ 0) entry && number.lt (of_ℕ 0) stop && number.lt stop entry)
      then ok (refuse "stop must be positive and below the entry price")
      else do
        stop_pct ← divide (number.sub entry stop) entry
        if number.lt params.max_stop_pct stop_pct
            then ok (refuse "stop is wider than the allowed maximum")
            else do
              let per_share_risk = number.sub entry stop
              risk ← times start_equity params.risk_pct
              risk_quotient ← divide risk per_share_risk
              by_risk ← number.floor risk_quotient
              share ← times start_equity params.max_position_pct
              share_quotient ← divide share entry
              by_notional ← number.floor share_quotient
              ok (sized params entry stop per_share_risk (min_ℤ by_risk by_notional))

  unfoldable pub stop_move_reason : Option F → F → Option F → Result Reason
  stop_move_reason none new_stop last_price = err type_error
  stop_move_reason (some current_stop) new_stop last_price =
      if number.le new_stop current_stop
      then ok (some "stops may only be tightened, never widened")
      else elim last_price [
        | none ↦ err type_error
        | some last ↦
            if number.le last new_stop
            then ok (some "new stop must be below the current price")
            else ok none
      ]

  -- `not last or abs(entry - last) / last > limit`
  unfoldable pub is_far : F → Option F → F → Result Bool
  is_far entry none limit = ok true
  is_far entry (some last) limit =
      if number.is_zero last
      then ok true
      else do off ← divide (number.abs (number.sub entry last)) last; ok (number.lt limit off)

  -- The last two rules, where the universe rules gave no reason.
  pub priced_entry : Params F → EntryFacts F → Result (Verdict F)
  priced_entry params facts = do
    far ← is_far facts.entry facts.last_price params.max_entry_deviation_pct
    if far
        then ok (refuse "entry price too far from the current price")
        else size_bracket params facts.start_equity facts.entry facts.stop

  unfoldable pub evaluate_entry : Params F → EntryFacts F → Result (Verdict F)
  unfolding priced_entry
  evaluate_entry params facts =
      if not facts.market_open
      then ok (refuse "market is not open")
      else if leb (micros params.last_entry_time) facts.now_et
      then ok (refuse "past the last allowed entry time")
      else if daily_halt params facts.start_equity facts.equity_now
      then ok (refuse "daily loss limit reached")
      else if contains facts.held_symbols facts.symbol
          || contains facts.pending_symbols facts.symbol
      then ok (refuse "already holding or working an order in this symbol")
      else if number.le params.max_positions
          (of_ℕ (length (union facts.held_symbols facts.pending_symbols)))
      then ok (refuse "maximum open positions reached")
      else if number.le params.max_orders_per_run (of_ℕ facts.orders_run)
      then ok (refuse "per-run order limit reached")
      else if number.le params.max_orders_per_day (of_ℕ facts.orders_day)
      then ok (refuse "per-day order limit reached")
      else elim facts.universe_reason [
        | some reason ↦ if is_blank reason then priced_entry params facts else ok (refuse reason)
        | none ↦ priced_entry params facts
      ]
