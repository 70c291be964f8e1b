-- ===== src/Trader/Tests.antt =====
-- Examples for the trading runner: a desk whose broker and bucket give fixed answers.
use infra_lab.Trader.Request
use infra_lab.Base.{
  count_if, ◌≤◌, ℕ, ◌*◌, String, ◌≡◌, refl, ◌↔◌, Bool, true, false, Option, none, some, List, [],
  ◌∷◌, if◌then◌else◌, keep_if, Result, ok, err, http, client, overflow, lock_held, str_eq, eq_refl,
}
use infra_lab.Base.Int.{pos, ◌*ℤ◌, ◌+ℤ◌, ◌-ℤ◌}
use infra_lab.Base.Fixed.{Fixed, fixed_number, Fixed-Lawful}
use infra_lab.Base.Json.{null, Fields, end, field, bool, num, str, obj}
use infra_lab.Trader.Config.{Params, from_dict}
use infra_lab.Trader.Config.Laws.{IsRead, from_dict_iff}
use infra_lab.Trader.Config.Errors.{Rejects, config_parts, from_dict-Rejects}
use infra_lab.Trader.Guardrails.{
  Sizing, enter, EntryFacts, size_bracket, evaluate_entry, daily_halt, is_far,
}
use infra_lab.Trader.Guardrails.Budget.{IsWithinBudget, size_bracket-IsWithinBudget}
use infra_lab.Trader.Guardrails.Entry.{IsAllowed, evaluate_entry_iff}
use infra_lab.Trader.World.{World, Call, Run, put_new, get_object, time}
use infra_lab.Trader.Store.{lock_object, lock_body, acquire_lock, release_lock, holder_message}
use infra_lab.Trader.Store.Lock.{
  JustWrote, IsFaithful, acquire_lock-JustWrote, acquire_lock-live, release-acquire,
}
use infra_lab.Trader.Tools.{Context}
use infra_lab.Trader.Tools.Dispatch.{place, call}
use infra_lab.Trader.Tools.DryRun.{is_trade}
use infra_lab.Trader.Tools.Simulated.{call-dry_run}
use infra_lab.Base.{zero, suc, ◌+◌, ok-injective}
use infra_lab.Trader.Agent.{Request, Response, Session, text, tool_use, run_agent}
use infra_lab.Trader.Agent.Breakpoints.{points, strict, IsPlain, run_agent-strict}
use infra_lab.Trader.Agent.Caps.{counted, IsCapped, run_agent-IsCapped}
use infra_lab.Trader.Store.{append_jsonl, get_lines_text, put_text, get_text}
use infra_lab.Trader.Tools.{journal}
use infra_lab.Trader.Tools.Quiet.{Quiet}
use infra_lab.Trader.Flatten.{flat, flatten, poll, after_poll}
use infra_lab.Trader.Api.{Api, cancel_order, shape_of, perform, perform-once}
use infra_lab.Trader.Flatten.Laws.{SawNone, flatten-SawNone, flatten-Quiet}

-- A whole number, and a number of ten-thousandths.
abbrev pub units : ℕ → Fixed
units n = pos (n * 10000)

abbrev pub raw_config : Fields Fixed
raw_config = field "max_positions" (num (units 5)) (
    field "max_position_pct" (num (pos 2000)) (
      field "risk_pct" (num (pos 50)) (
        field "max_stop_pct" (num (pos 800)) (
          field "reward_r" (num (units 2)) (
            field "daily_loss_halt_pct" (num (pos 200)) (
              field "min_price" (num (units 5)) (
                field "min_avg_volume" (num (units 500000)) (
                  field "min_avg_dollar_volume" (num (units 20000000)) (
                    field "max_entry_deviation_pct" (num (pos 100)) (
                      field "max_orders_per_run" (num (units 3)) (
                        field "max_orders_per_day" (num (units 10)) (
                          field "max_turns" (num (units 30)) (
                            field "max_run_cost_usd" (num (units 2))
                              (field "last_entry_time" (str "15:30") end))))))))))))))

abbrev pub limits : Params Fixed
limits = record {
  max_positions = units 5;
  max_position_pct = pos 2000;
  risk_pct = pos 50;
  max_stop_pct = pos 800;
  reward_r = units 2;
  daily_loss_halt_pct = pos 200;
  last_entry_time = record { hour = 15; minute = 30 };
  min_price = units 5;
  min_avg_volume = units 500000;
  min_avg_dollar_volume = units 20000000;
  max_entry_deviation_pct = pos 100;
  max_orders_per_run = units 3;
  max_orders_per_day = units 10;
  max_turns = units 30;
  max_run_cost_usd = units 2;
}

-- The config above gives these limits.
reads_limits : from_dict (obj raw_config) ≡ ok limits
unfolding from_dict fixed_number ◌*ℤ◌
reads_limits = refl

from_dict_iff_example : (from_dict (obj raw_config) ≡ ok limits) ↔ IsRead raw_config limits
from_dict_iff_example = from_dict_iff raw_config limits

from_dict-Rejects_example : Rejects (config_parts (obj raw_config)) (from_dict (obj raw_config))
from_dict-Rejects_example = from_dict-Rejects (obj raw_config)

-- A time that is no C integer is an OverflowError.
overflows :
    from_dict (obj (field "last_entry_time" (str "99999999999:00") raw_config)) ≡ err overflow
unfolding from_dict fixed_number ◌*ℤ◌
overflows = refl

abbrev sized_order : Sizing Fixed
sized_order = record {
  qty = pos 100;
  entry = units 100;
  stop = units 95;
  target = units 110;
  risk_dollars = units 500;
  notional = units 10000;
}

is_sized : size_bracket limits (some (units 100000)) (units 100) (units 95) ≡ ok (enter sized_order)
unfolding size_bracket fixed_number ◌*ℤ◌ ◌-ℤ◌ ◌+ℤ◌
is_sized = refl

size_bracket-IsWithinBudget_example :
    IsWithinBudget limits (some (units 100000)) (units 100) (units 95) sized_order
size_bracket-IsWithinBudget_example =
    size_bracket-IsWithinBudget Fixed-Lawful limits (some (units 100000)) (units 100) (units 95)
      sized_order is_sized

-- A share count within both limits at an entry of 10.006, but over the notional limit of 50000 at the
-- entry of 10.01 that is sent.
over_notional :
    size_bracket
      (record limits { risk_pct = pos 1; max_position_pct = pos 5000 })
      (some (units 100000))
      (pos 100060)
      (pos 100040)
    ≡ ok (
        enter (record {
          qty = pos 4997;
          entry = pos 100100;
          stop = pos 100000;
          target = pos 100100;
          risk_dollars = pos 99900;
          notional = pos 499999800;
        }))
unfolding size_bracket fixed_number ◌*ℤ◌ ◌-ℤ◌ ◌+ℤ◌
over_notional = refl

abbrev morning : EntryFacts Fixed
morning = record {
  market_open = true;
  now_et = 36000000000;
  start_equity = some (units 100000);
  equity_now = units 100000;
  symbol = "ABC";
  held_symbols = "XYZ" ∷ [];
  pending_symbols = [];
  orders_run = 0;
  orders_day = 2;
  universe_reason = none;
  last_price = some (units 100);
  entry = units 100;
  stop = units 95;
}

lets_through : evaluate_entry limits morning ≡ ok (enter sized_order)
unfolding evaluate_entry size_bracket daily_halt is_far fixed_number ◌*ℤ◌ ◌-ℤ◌ ◌+ℤ◌
lets_through = refl

evaluate_entry_iff_example :
    (evaluate_entry limits morning ≡ ok (enter sized_order)) ↔ IsAllowed limits morning sized_order
evaluate_entry_iff_example = evaluate_entry_iff limits morning sized_order

-- An empty bucket that reads back the conditional write that came last.
abbrev read_back : List (Call Fixed) → String → Result (Option String)
read_back (put_new key body ∷ h) wanted = if str_eq key wanted then ok (some body) else ok none
read_back h wanted = ok none

abbrev pub desk : World Fixed
desk = record {
  get_object = read_back;
  put_object = λ h key body. ok tt;
  put_new = λ h key body. ok tt;
  delete_object = λ h key. ok tt;
  list_objects = λ h p. ok [];
  account =
      λ h. ok (field "equity" (num (units 100000)) (field "last_equity" (num (units 100000)) end));
  positions = λ h. ok [];
  clock = λ h. ok (field "is_open" (bool true) end);
  calendar = λ h day. ok [];
  orders = λ h after. ok [];
  asset = λ h symbol. ok (
      field "tradable" (bool true) (
        field "class" (str "us_equity") (
          field "exchange" (str "NASDAQ") (
            field "status" (str "active")
              (field "name" (str "ABC Corporation") (field "symbol" (str symbol) end))))));
  snapshots =
      λ h symbol. ok ((symbol, record { latest = some (units 100); daily_close = none }) ∷ []);
  bars = λ h symbol. ok [];
  query = λ h q. ok (obj end);
  submit_order = λ h order. ok (field "id" (str "order-1") (field "status" (str "accepted") end));
  replace_order = λ h id price. ok tt;
  cancel_order = λ h id. ok tt;
  close_position = λ h symbol. ok tt;
  cancel_all_orders = λ h. ok tt;
  close_all_positions = λ h. ok tt;
  notify = λ h topic. true;
  time = λ h. units 1000;
  now_iso = λ h. "2026-01-02T15:00:00Z";
  now_et = λ h. 36000000000;
  today = λ h. "2026-01-02";
  hour_minute = λ h. "10:00";
  days_before = λ day n. ok day;
  open_time = λ day. ok day;
  date_of = λ text. ok text;
  get_secret = λ h arn. ok "{}";
  converse = λ h r. err (http 503 "busy");
  environ = λ name. some "1";
  type_name = λ e. "Error";
  error_text = λ e. "failed";
  dumps = λ v. "{}";
  dumps_indent = λ v. "{}";
  line = λ e. "{}";
  loads = λ body. ok (lock_object "run-1" 2 (units 1000));
}

abbrev pub fresh : Run Fixed
fresh = record { history = []; orders_run = 0; report_sent = false }

is_acquired : (acquire_lock desk "swing/" "run-1" 2 fresh).0 ≡ ok tt
unfolding acquire_lock
is_acquired = refl

acquire_lock-JustWrote_example :
    JustWrote desk "swing/"
      (lock_body desk "swing/" "run-1" 2 (units 1000))
      (acquire_lock desk "swing/" "run-1" 2 fresh).1.history
acquire_lock-JustWrote_example = acquire_lock-JustWrote desk "swing/" "run-1" 2 fresh is_acquired

desk-IsFaithful : IsFaithful desk "swing/" (lock_object "run-1" 2 (units 1000))
desk-IsFaithful = record {
  get-put_new = λ h key body wrote. rw (eq_refl key) refl;
  loads-dumps = refl;
}

release-acquire_example :
    (release_lock desk "swing/" "run-2" (acquire_lock desk "swing/" "run-1" 2 fresh).1).1.history
    ≡ get_object "swing/state/lock.json" ∷ (acquire_lock desk "swing/" "run-1" 2 fresh).1.history
release-acquire_example =
    release-acquire desk "swing/" "run-1" "run-2" 2 fresh desk-IsFaithful is_acquired

-- The same desk while another run holds the lock.
abbrev pub locked : World Fixed
locked = record desk {
  put_new = λ h key body. err (client "PreconditionFailed");
  get_object = λ h key. ok (some "{}");
  loads =
      λ body. ok (obj (field "run_id" (str "run-1") (field "expires_at" (num (units 1900)) end)));
}

-- The lock of the other run.
abbrev pub holder : Fields Fixed
holder = field "run_id" (str "run-1") (field "expires_at" (num (units 1900)) end)

runs_out : fixed_number.lt (units 1000) (units 1900) ≡ true
unfolding fixed_number
runs_out = refl

acquire_lock-live_example : acquire_lock locked "swing/" "run-2" 2 fresh ≡ (
  err (lock_held (holder_message locked "swing/" holder)),
  record fresh {
    history =
        time
        ∷ get_object "swing/state/lock.json"
        ∷ put_new "swing/state/lock.json" (lock_body locked "swing/" "run-2" 2 (units 1000))
        ∷ time
        ∷ [];
  },
)
acquire_lock-live_example =
    acquire_lock-live locked "swing/" "run-2" 2 "PreconditionFailed" "{}" holder (units 1900) fresh
      refl refl refl refl refl runs_out

abbrev pub live_context : Bool → Context
live_context dry = record {
  slot = 2;
  day = "2026-01-02";
  dry_run = dry;
  ntfy_topic = "topic";
  strategy = "swing";
  config_root = "config/";
}

call-dry_run_example :
    keep_if is_trade
      (call desk "swing/"
        (live_context true)
        limits
        (place (str "abc") (num (units 100)) (num (units 95)))
        fresh).1.history
    ≡ []
call-dry_run_example =
    call-dry_run desk "swing/" (live_context true) refl limits
      (place (str "abc") (num (units 100)) (num (units 95))) fresh

-- A model that asks for one tool, and then ends.
abbrev answer : Request Fixed → ℕ → Response Fixed
answer request zero = record {
  input_tokens = units 10;
  output_tokens = units 10;
  cache_read = units 0;
  cache_write = units 0;
  content = text "look" ∷ tool_use "get_account" null "use-1" ∷ [];
  stop_reason = some "tool_use";
}
answer request (suc n) = record {
  input_tokens = units 10;
  output_tokens = units 10;
  cache_read = units 0;
  cache_write = units 0;
  content = text "done" ∷ [];
  stop_reason = some "end_turn";
}

-- Its state is the number of the requests made.
abbrev chat : Session ℕ Fixed
chat = record { converse = λ r n. (ok (answer r n), n + 1); call = λ name input n. (ok "{}", n) }

chat-IsPlain : IsPlain chat
unfolding points
chat-IsPlain r zero response h = rw (← ok-injective (answer r 0) response h) refl
chat-IsPlain r (suc n) response h = rw (← ok-injective (answer r 1) response h) refl

run_agent-strict_example :
    run_agent (strict chat) (pos 1) (pos 2) "system" limits "go" 0
    ≡ run_agent chat (pos 1) (pos 2) "system" limits "go" 0
run_agent-strict_example = run_agent-strict chat chat-IsPlain (pos 1) (pos 2) "system" limits "go" 0

thirty_turns : fixed_number.index? (units 30) ≡ some (pos 30)
unfolding fixed_number
thirty_turns = refl

run_agent-IsCapped_example :
    IsCapped limits 30 (run_agent (counted chat) (pos 1) (pos 2) "system" limits "go" (0, 0))
run_agent-IsCapped_example =
    run_agent-IsCapped chat (pos 1) (pos 2) "system" "go" limits 30 0 thirty_turns

is_flat : (flatten desk "swing/" (live_context false) fresh).0 ≡ ok (flat false)
unfolding flatten poll after_poll journal append_jsonl get_lines_text put_text get_text
is_flat = refl

flatten-SawNone_example :
    SawNone desk "swing/"
      (live_context false)
      (flatten desk "swing/" (live_context false) fresh).1.history
flatten-SawNone_example =
    flatten-SawNone desk "swing/" (live_context false) refl false fresh is_flat

flatten-Quiet_example : Quiet is_trade (flatten desk "swing/" (live_context true))
flatten-Quiet_example = flatten-Quiet desk "swing/" (live_context true) refl

abbrev always_busy : List Request.Call → Request.Outcome Fixed
always_busy made = Request.http_error 503 "busy"

attempt_request-count_example :
    count_if (Request.is_request always_busy) (Request.attempt_request always_busy 2 0 []).1 ≤ 3
attempt_request-count_example = Request.attempt_request-count always_busy 2 0 []

abbrev cancellation : Api Fixed
cancellation = cancel_order "order-1"

perform-once_example :
    count_if (Request.is_request always_busy) (perform (λ shape. always_busy) cancellation []).1 ≤ 1
unfolding shape_of
perform-once_example = perform-once (λ shape. always_busy) cancellation [] refl
