-- ===== src/Trader/World.antt =====
-- Everything outside the trading runner that it calls: S3, the Alpaca API, the clocks, ntfy. A run
-- keeps the list of the calls that it has made, newest first; what a call returns is a function of
-- the calls before it and of its arguments, of which nothing is known but the laws that a theorem
-- names. So the effects of a run, and their order, are what the list shows.
use infra_lab.Base.{ℕ, String, Bool, Option, List, ◌∷◌, Result, Exec}
use infra_lab.Base.Int.{ℤ}
use infra_lab.Base.Json.{Json, Fields}
use infra_lab.Base.{PyError}
use infra_lab.Trader.Guardrails.{Sizing}
use infra_lab.Trader.Agent.{Request, Response}

-- The body of a bracket order: its symbol, the numbers that it sends as text, and its id.
pub record Order (F : Type 0) : Type 0 where
  pub symbol : String
  pub sizing : Sizing F
  pub client_order_id : String

-- A request to the market data API whose reply is read as JSON.
pub data Query (F : Type 0) : Type 0 where
  movers most_actives : ℤ → Query F
  -- symbols and feed
  quotes : String → String → Query F
  -- symbols, timeframe, start, end, limit and feed
  candles : String → String → Json F → Json F → ℕ → String → Query F
  -- symbols, limit and start
  news : String → ℤ → String → Query F

pub data Call (F : Type 0) : Type 0 where
  -- S3, by key
  get_object delete_object list_objects : String → Call F
  put_object : String → String → Call F
  -- `put_object` with IfNoneMatch="*"
  put_new : String → String → Call F
  -- Alpaca, reads
  account positions clock : Call F
  calendar orders asset snapshots bars : String → Call F
  query : Query F → Call F
  -- Alpaca, writes
  submit_order : Order F → Call F
  replace_order : String → F → Call F
  cancel_order close_position : String → Call F
  cancel_all_orders close_all_positions : Call F
  -- `notify.send`: topic, title, message, priority
  notify : String → String → String → ℕ → Call F
  time now_iso now_et : Call F
  sleep : ℕ → Call F
  -- Secrets Manager, by ARN, and the model
  get_secret : String → Call F
  converse : Request F → Call F

-- An order as the API lists it, with its legs.
pub record OrderTree (F : Type 0) : Type 0 where
  pub parent : Fields F
  pub legs : List (Fields F)

-- One daily bar, as far as it is read.
pub record Bar (F : Type 0) : Type 0 where
  pub volume : F
  pub close : F

-- A snapshot, as far as it is read: `latestTrade.p` and `dailyBar.c`.
pub record Snap (F : Type 0) : Type 0 where
  pub latest : Option F
  pub daily_close : Option F

-- One line of the journal.
pub record Entry (F : Type 0) : Type 0 where
  pub ts : String
  pub slot : ℕ
  pub kind : String
  pub fields : Fields F

pub record World (F : Type 0) : Type 0 where
  -- `none` is NoSuchKey
  pub get_object : List (Call F) → String → Result (Option String)
  pub put_object : List (Call F) → String → String → Result (Unit {0})
  pub put_new : List (Call F) → String → String → Result (Unit {0})
  pub delete_object : List (Call F) → String → Result (Unit {0})
  pub list_objects : List (Call F) → String → Result (List String)
  pub account : List (Call F) → Result (Fields F)
  pub positions : List (Call F) → Result (List (Fields F))
  pub clock : List (Call F) → Result (Fields F)
  pub calendar : List (Call F) → String → Result (List (Json F))
  pub orders : List (Call F) → String → Result (List (OrderTree F))
  pub asset : List (Call F) → String → Result (Fields F)
  pub snapshots : List (Call F) → String → Result (List (String × Snap F))
  pub bars : List (Call F) → String → Result (List (String × List (Bar F)))
  pub query : List (Call F) → Query F → Result (Json F)
  pub submit_order : List (Call F) → Order F → Result (Fields F)
  pub replace_order : List (Call F) → String → F → Result (Unit {0})
  pub cancel_order : List (Call F) → String → Result (Unit {0})
  pub close_position : List (Call F) → String → Result (Unit {0})
  pub cancel_all_orders : List (Call F) → Result (Unit {0})
  pub close_all_positions : List (Call F) → Result (Unit {0})
  pub notify : List (Call F) → String → Bool
  -- `time.time()`, the UTC time as text, and the time of day in New York in microseconds
  pub time : List (Call F) → F
  pub now_iso : List (Call F) → String
  pub now_et : List (Call F) → ℕ
  -- the same time's date, and its hours and minutes, as text
  pub today : List (Call F) → String
  pub hour_minute : List (Call F) → String
  -- the date so many days before a date, 9:30 in New York on a date as a UTC time, and the date in New
  -- York of a time; all texts in ISO format, with a ValueError for one that is not
  pub days_before : String → ℕ → Result String
  pub open_time : String → Result String
  pub date_of : String → Result String
  pub get_secret : List (Call F) → String → Result String
  pub converse : List (Call F) → Request F → Result (Response F)
  -- `os.environ.get(name)`
  pub environ : String → Option String
  -- `type(exc).__name__`, and `str(exc)` of an exception that the program has not made itself
  pub type_name : PyError → String
  pub error_text : PyError → String
  -- `json.dumps` of a value, also with `indent=2`, and of a journal entry, and `json.loads`
  pub dumps : Json F → String
  pub dumps_indent : Json F → String
  pub line : Entry F → String
  pub loads : String → Result (Json F)

-- The mutable part of a run: the calls made, and the two counters of `RunContext`.
pub record Run (F : Type 0) : Type 0 where
  pub history : List (Call F)
  pub orders_run : ℕ
  pub report_sent : Bool

module _ {F : Type 0} where
  -- Makes a call: its reply depends on the calls before it.
  abbrev pub send {ℓ} : {A : Type ℓ} → Call F → (List (Call F) → Result A) → Exec (Run F) A
  send call reply s = (reply s.history, record s { history = call ∷ s.history })
