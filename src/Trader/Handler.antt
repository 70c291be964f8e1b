-- ===== src/Trader/Handler.antt =====
-- `_run` and `handler` of handler.py: one wakeup, from its event to its answer. The clients of boto3
-- are the calls of `World`; the run id, of the Lambda context or a fresh one, is an argument.
pub mod Session
pub mod Inputs
pub mod Quiet
pub mod Start
pub mod Loop
pub mod DryRun
pub mod Lock
pub mod Errors
pub mod Gates
mod Tests
use infra_lab.Base.{
  ℕ, ◌==◌, leb, String, Bool, true, false, not, ◌&&◌, Option, none, some, List, ◌∷◌, if◌then◌else◌,
  is_empty, PyError, Result, ok, err, key_error, http, runtime, config, lock_held, Exec,
}
use infra_lab.Base.Int.{ℤ, pos, negsuc}
use infra_lab.Base.Stateful.{pure, raise, lift, attempt, finally, ◌>>=◌, ◌>>◌}
use infra_lab.Base.Text.{◌<>◌, upper, show_ℕ}
use infra_lab.Base.Number.{Number, text_of, truthy}
use infra_lab.Base.Json.{Json, Fields, end, field, str, obj, member}
use infra_lab.Trader.Config.{Params, from_dict}
use infra_lab.Trader.Guardrails.{Reason, paper_check}
use infra_lab.Trader.World.{World, Run, send, account, calendar, now_et}
use infra_lab.Trader.Store.{get_json, object_or_empty, acquire_lock, release_lock}
use infra_lab.Trader.Strategy.{
  default_strategy, is_strategy_id, strategy_root, store_prefix, strategy_of, is_enabled,
}
use infra_lab.Trader.Tools.{or_null, Context, journal}
use infra_lab.Trader.Api.{trading_url}
use infra_lab.Trader.Agent.{Summary}
use infra_lab.Trader.Flatten.{Flattened, alert_to, alert, flatten}
use infra_lab.Trader.Handler.Session.{env, run_slot}
unfoldable pub use infra_lab.Trader.Handler.Inputs.{
  slot_of, message_of, describe, secret, arns, credentials,
}

abbrev pub flatten_slot : ℕ
flatten_slot = 5

-- What an invocation returns: not ok with an error, or ok.
pub data Answer (F : Type 0) : Type 0 where
  refused skipped : String → Answer F
  flattened : Flattened → Answer F
  ran : Summary F → Answer F

module _ {F : Type 0} ⦃number : Number F⦄ (w : World F) (prefix : String) (ctx : Context) where
  -- Whether the control object, for a run that is not dry, lets the run go on.
  unfoldable pub enabled_today : String → Exec (Run F) Bool
  enabled_today root = if ctx.dry_run then pure true else do
    found ← get_json w prefix (root <> "control/enabled.json") (some (obj end)) true
    control ← lift (object_or_empty w prefix found)
    lift (is_enabled ctx.day control)

  -- What the run does under the lock, or without it in the flatten slot.
  unfoldable pub work : Params F → String → String → Exec (Run F) (Answer F)
  work params time run_id =
      if ctx.slot == flatten_slot
      then (do found ← flatten w prefix ctx; pure (flattened found))
      else do result ← run_slot w prefix ctx params time ctx.config_root; pure (ran result)

  -- `except Exception`
  unfoldable pub after_work : Result (Answer F) → Exec (Run F) (Answer F)
  unfolding describe message_of
  after_work (ok answer) = pure answer
  after_work (err e) = do
    journal w prefix ctx "error" (field "error" (str (describe w e)) end)
    alert w prefix ctx ("Trading run failed (slot " <> (show_ℕ ctx.slot <> ")")) (describe w e)
    pure (refused (message_of w e))

  -- The second `try` without its `finally`.
  unfoldable pub guarded : Params F → String → String → Exec (Run F) (Answer F)
  unfolding work after_work
  guarded params time run_id = attempt (work params time run_id) >>= after_work

  unfoldable pub release_if : Bool → String → Exec (Run F) (Unit {0})
  release_if locked run_id = if locked then release_lock w prefix run_id else pure tt

  -- What follows the attempt to take the lock.
  unfoldable pub after_lock :
      Params F → String → String → Result (Unit {0}) → Exec (Run F) (Answer F)
  unfolding guarded release_if
  after_lock params time run_id (ok _) =
      finally (guarded params time run_id) (release_if true run_id)
  after_lock params time run_id (err (lock_held message)) = do
    alert w prefix ctx "Run skipped: lock held" ("slot " <> (show_ℕ ctx.slot <> (": " <> message)))
    if not (ctx.slot == flatten_slot)
        then pure (refused message)
        else finally (guarded params time run_id) (release_if false run_id)
  after_lock params time run_id (err e) = raise e

  unfoldable pub locked_run : Params F → String → String → Exec (Run F) (Answer F)
  unfolding after_lock
  locked_run params time run_id =
      attempt (acquire_lock w prefix run_id ctx.slot) >>= after_lock params time run_id

  -- The calendar is empty on a day without trading.
  unfoldable pub after_calendar :
      Params F → String → String → List (Json F) → Exec (Run F) (Answer F)
  unfolding locked_run
  after_calendar params time run_id entries =
      if is_empty entries
      then pure (skipped "market closed today")
      else locked_run params time run_id

  unfoldable pub after_paper : Params F → String → String → Reason → Exec (Run F) (Answer F)
  unfolding after_calendar locked_run
  after_paper params time run_id (some bad) = do
    alert w prefix ctx "Paper check failed" bad
    pure (refused bad)
  after_paper params time run_id none =
      if ctx.dry_run
      then locked_run params time run_id
      else send (calendar ctx.day) (λ h. w.calendar h ctx.day) >>= after_calendar params time run_id

  unfoldable pub check_account : Params F → String → String → Fields F → Exec (Run F) (Answer F)
  unfolding after_paper
  check_account params time run_id acct =
      after_paper params time run_id (paper_check trading_url acct)

  -- With the limits, or the ConfigError that there are none.
  unfoldable pub after_config : String → String → Result (Params F) → Exec (Run F) (Answer F)
  unfolding check_account credentials
  after_config time run_id (ok params) =
      credentials w ctx.strategy >> (send account w.account >>= check_account params time run_id)
  after_config time run_id (err (config message)) = do
    alert w prefix ctx "Trading config invalid" message
    pure (refused message)
  after_config time run_id (err e) = raise e

  unfoldable pub read_config : Exec (Run F) (Params F)
  read_config = do
    found ← get_json w prefix (ctx.config_root <> "guardrails.json") none true
    lift (from_dict (or_null found))

  unfoldable pub after_control : String → String → Bool → Exec (Run F) (Answer F)
  unfolding after_config read_config
  after_control time run_id enabled =
      if enabled
      then attempt read_config >>= after_config time run_id
      else pure (skipped "not enabled for today")

module _ {F : Type 0} ⦃number : Number F⦄ (w : World F) where
  abbrev pub context_of : ℕ → Bool → String → String → String → Context
  context_of slot dry_run strategy today topic = record {
    slot = slot;
    day = today;
    dry_run = dry_run;
    ntfy_topic = topic;
    strategy = strategy;
    config_root = strategy_root strategy <> "config/";
  }

  -- `_run` for a slot and a strategy that are valid.
  unfoldable pub begin : ℕ → Bool → String → String → Exec (Run F) (Answer F)
  unfolding secret enabled_today after_control
  begin slot dry_run strategy run_id = do
    bucket ← lift (env w "STATE_BUCKET")
    (today, time) ← send now_et (λ h. ok (w.today h, w.hour_minute h))
    arn ← lift (env w "NTFY_SECRET_ARN")
    topic ← secret w arn
    let ctx = context_of slot dry_run strategy today topic
    let prefix = store_prefix dry_run strategy
    enabled ← enabled_today w prefix ctx (strategy_root strategy)
    after_control w prefix ctx time run_id enabled

  unfoldable pub run_valid : ℤ → Bool → String → String → Exec (Run F) (Answer F)
  unfolding begin
  run_valid (negsuc n) dry_run strategy run_id = pure (refused "slot must be 1 to 6")
  run_valid (pos slot) dry_run strategy run_id =
      if not (leb 1 slot && leb slot 6)
      then pure (refused "slot must be 1 to 6")
      else if not (is_strategy_id strategy)
      then pure (refused "invalid strategy id")
      else begin slot dry_run strategy run_id

  -- `_run`
  unfoldable pub run : String → Fields F → Exec (Run F) (Answer F)
  unfolding run_valid slot_of strategy_of
  run run_id event = do
    slot ← lift (slot_of (member "slot" event))
    run_valid slot (truthy (member "dry_run" event)) (strategy_of (member "strategy" event)) run_id

  -- The exceptions that `handler` catches.
  unfoldable pub is_startup : PyError → Bool
  is_startup (http status body) = true
  is_startup key_error = true
  is_startup (runtime message) = true
  is_startup e = false

  -- `str((event or {}).get("strategy") or DEFAULT_STRATEGY).upper()`
  unfoldable pub startup_label : Fields F → String
  unfolding upper
  startup_label event =
      let given = member "strategy" event in
      upper (if truthy given then text_of (or_null given) else default_strategy)

  unfoldable pub startup_alert : Option (Json F) → PyError → Exec (Run F) Bool
  unfolding startup_label secret describe
  startup_alert event e = do
    arn ← lift (env w "NTFY_SECRET_ARN")
    topic ← secret w arn
    given ← lift (object_or_empty w "" event)
    alert_to w topic (startup_label given) "Trading startup failure" (describe w e)

  unfoldable pub after_run : Option (Json F) → Result (Answer F) → Exec (Run F) (Answer F)
  unfolding startup_alert is_startup message_of
  after_run event (ok answer) = pure answer
  after_run event (err e) =
      if is_startup e
      then attempt (startup_alert event e) >> pure (refused (message_of w e))
      else raise e

  -- `_run(event or {}, context)`
  unfoldable pub run_event : Option (Json F) → String → Exec (Run F) (Answer F)
  unfolding run
  run_event event run_id = lift (object_or_empty w "" event) >>= run run_id

  unfoldable pub handler : Option (Json F) → String → Exec (Run F) (Answer F)
  unfolding run_event after_run
  handler event run_id = attempt (run_event event run_id) >>= after_run event
