-- ===== src/Trader/Handler/Start.antt =====
-- Up to the account check a wakeup changes nothing at the broker: what is left to show of a whole one
-- is what follows the reply of the broker.
use infra_lab.Base.{ℕ, String, Bool, true, Option, some, Result, ok, err, config, Exec}
use infra_lab.Base.Stateful.{◌>>=◌}
use infra_lab.Base.Int.{ℤ, pos, negsuc}
use infra_lab.Base.Number.{Number, truthy}
use infra_lab.Base.Json.{Json, Fields, obj, member}
use infra_lab.Trader.Config.{Params}
use infra_lab.Trader.World.{World, Run, send, account}
use infra_lab.Trader.Strategy.{strategy_of, store_prefix}
use infra_lab.Trader.Tools.{Context}
use infra_lab.Trader.Tools.Quiet.{Quiet, quiet_rules}
use infra_lab.Trader.Tools.DryRun.{is_trade}
use infra_lab.Trader.Handler.{
  Answer, check_account, after_config, after_control, context_of, begin, run_valid, run, after_run,
  run_event, handler,
}
use infra_lab.Trader.Handler.Quiet.{
  alert-Quiet, secret-Quiet, credentials-Quiet, enabled_today-Quiet, read_config-Quiet,
  startup_alert-Quiet,
}

module _ {F : Type 0} ⦃number : Number F⦄ (w : World F) (prefix : String) (ctx : Context) where
  module _ (time run_id : String) where
    -- From the account on.
    abbrev pub from_account : Params F → Exec (Run F) (Answer F)
    from_account params = send account w.account >>= check_account w prefix ctx params time run_id

    after_config-Quiet :
        ((params : Params F) → Quiet is_trade (from_account params))
        → (found : Result (Params F)) → Quiet is_trade (after_config w prefix ctx time run_id found)
    unfolding after_config
    after_config-Quiet q (ok params) = search (quiet_rules, credentials-Quiet)
    after_config-Quiet q (err (config message)) = search (quiet_rules, alert-Quiet)
    after_config-Quiet q (err _) = search quiet_rules

    after_control-Quiet :
        ((params : Params F) → Quiet is_trade (from_account params))
        → (enabled : Bool) → Quiet is_trade (after_control w prefix ctx time run_id enabled)
    unfolding after_control
    after_control-Quiet q enabled =
        search (quiet_rules, read_config-Quiet, after_config-Quiet q) depth 8

module _ {F : Type 0} ⦃number : Number F⦄ (w : World F) where
  -- Whatever the slot, the day and the topic: from the account on nothing changes at the broker.
  unfoldable pub IsQuietAfter : Bool → String → Type 0
  IsQuietAfter dry_run strategy =
      (slot : ℕ) (today topic time run_id : String) (params : Params F)
      → Quiet is_trade (
          from_account w (store_prefix dry_run strategy)
            (context_of w slot dry_run strategy today topic) time run_id params)

  begin-Quiet :
      (slot : ℕ) (dry_run : Bool) (strategy run_id : String)
      → IsQuietAfter dry_run strategy
      → Quiet is_trade (begin w slot dry_run strategy run_id)
  unfolding begin IsQuietAfter
  begin-Quiet slot dry_run strategy run_id q =
      search (quiet_rules, secret-Quiet, enabled_today-Quiet, after_control-Quiet, q) depth 14

  run_valid-Quiet :
      (slot : ℤ) (dry_run : Bool) (strategy run_id : String)
      → IsQuietAfter dry_run strategy
      → Quiet is_trade (run_valid w slot dry_run strategy run_id)
  unfolding run_valid
  run_valid-Quiet (negsuc n) dry_run strategy run_id q = search quiet_rules
  run_valid-Quiet (pos slot) dry_run strategy run_id q = search (quiet_rules, begin-Quiet)

  run-Quiet :
      (run_id : String) (event : Fields F)
      → IsQuietAfter (truthy (member "dry_run" event)) (strategy_of (member "strategy" event))
      → Quiet is_trade (run w run_id event)
  unfolding run
  run-Quiet run_id event q = search (quiet_rules, run_valid-Quiet)

  run_event-Quiet :
      (run_id : String) (event : Fields F)
      → IsQuietAfter (truthy (member "dry_run" event)) (strategy_of (member "strategy" event))
      → Quiet is_trade (run_event w (some (obj event)) run_id)
  unfolding run_event
  run_event-Quiet run_id event q = record { at = λ s. (run-Quiet run_id event q).at s }

  after_run-Quiet :
      (ctx : Context) (event : Option (Json F)) (outcome : Result (Answer F))
      → Quiet is_trade (after_run w event outcome)
  unfolding after_run
  after_run-Quiet ctx event (ok answer) = search quiet_rules
  after_run-Quiet ctx event (err e) = search (quiet_rules, startup_alert-Quiet w "" ctx) depth 8

  -- A whole wakeup changes nothing at the broker, if it changes nothing from the account on.
  pub handler-Quiet :
      (event : Fields F) (run_id : String)
      → IsQuietAfter (truthy (member "dry_run" event)) (strategy_of (member "strategy" event))
      → Quiet is_trade (handler w (some (obj event)) run_id)
  unfolding handler
  handler-Quiet event run_id q =
      search (quiet_rules, run_event-Quiet, after_run-Quiet (context_of w 0 true "" "" "")) depth 10
