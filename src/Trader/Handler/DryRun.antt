-- ===== src/Trader/Handler/DryRun.antt =====
-- A wakeup of handler.py that is a dry run.
use infra_lab.Base.{String, ◌≡◌, ◌==◌, Bool, true, none, some, keep_if, Result, ok, err, lock_held}
use infra_lab.Base.Number.{Number, truthy}
use infra_lab.Base.Json.{Fields, obj, member}
use infra_lab.Trader.Config.{Params}
use infra_lab.Trader.Guardrails.{Reason}
use infra_lab.Trader.World.{World, Run}
use infra_lab.Trader.Tools.{Context}
use infra_lab.Trader.Tools.Quiet.{Quiet, quiet_rules, Quiet-if}
use infra_lab.Trader.Tools.DryRun.{get_json-Quiet, is_trade, journal-Quiet}
use infra_lab.Trader.Tools.Simulated.{
  call-Quiet, send_notice-Quiet, account_report-Quiet, position_report-Quiet,
}
use infra_lab.Trader.Agent.{Summary}
use infra_lab.Trader.Flatten.Laws.{flatten-Quiet}
use infra_lab.Trader.Handler.{
  Answer, flatten_slot, work, after_work, guarded, after_lock, locked_run, after_calendar,
  after_paper, check_account, handler,
}
use infra_lab.Trader.Handler.Session.{
  session, fallback_report, alert_early, report_late, after_agent, run_slot,
}
use infra_lab.Trader.Handler.Quiet.{
  tail_lines-Quiet, load_prompt_docs-Quiet, acquire_lock-Quiet, alert-Quiet, release_if-Quiet,
}
use infra_lab.Trader.Handler.Loop.{IsTame, run_agent-Quiet}
use infra_lab.Trader.Handler.Start.{IsQuietAfter, handler-Quiet}

module _ {F : Type 0} ⦃number : Number F⦄ (w : World F) (prefix : String) (ctx : Context) where
  module _ (params : Params F) where
    fallback_report-Quiet : Quiet is_trade (fallback_report w prefix ctx params)
    unfolding fallback_report
    fallback_report-Quiet =
        search
          (quiet_rules, account_report-Quiet, position_report-Quiet, send_notice-Quiet w prefix ctx)
          depth 10

    alert_early-Quiet :
        (result : Summary F) → Quiet is_trade (alert_early w prefix ctx params result)
    unfolding alert_early
    alert_early-Quiet result = search (quiet_rules, alert-Quiet) depth 8

    report_late-Quiet : (sent : Bool) → Quiet is_trade (report_late w prefix ctx params sent)
    unfolding report_late
    report_late-Quiet sent = search (quiet_rules, fallback_report-Quiet) depth 8

    after_agent-Quiet :
        (result : Summary F) → Quiet is_trade (after_agent w prefix ctx params result)
    unfolding after_agent
    after_agent-Quiet result =
        search (quiet_rules, journal-Quiet, alert_early-Quiet, report_late-Quiet) depth 10

    module _ (dry : ctx.dry_run ≡ true) where
      session-IsTame : IsTame (session w prefix ctx params)
      unfolding session
      session-IsTame = record {
        model = λ request. search quiet_rules;
        tools = λ name input. call-Quiet w prefix ctx dry params _;
      }

      run_slot-Quiet : (time cfg : String) → Quiet is_trade (run_slot w prefix ctx params time cfg)
      unfolding run_slot
      run_slot-Quiet time cfg =
          search
            (
              quiet_rules,
              load_prompt_docs-Quiet,
              get_json-Quiet,
              tail_lines-Quiet,
              run_agent-Quiet (session w prefix ctx params) session-IsTame,
              after_agent-Quiet,
            )
            depth 18

      module _ (time run_id : String) where
        work-Quiet : Quiet is_trade (work w prefix ctx params time run_id)
        unfolding work
        work-Quiet =
            Quiet-if (ctx.slot == flatten_slot) _ _
              (search (quiet_rules, flatten-Quiet w prefix ctx dry))
              (search (quiet_rules, run_slot-Quiet))

        after_work-Quiet :
            (outcome : Result (Answer F)) → Quiet is_trade (after_work w prefix ctx outcome)
        unfolding after_work
        after_work-Quiet (ok answer) = search quiet_rules
        after_work-Quiet (err e) = search (quiet_rules, journal-Quiet, alert-Quiet) depth 8

        guarded-Quiet : Quiet is_trade (guarded w prefix ctx params time run_id)
        unfolding guarded
        guarded-Quiet = search (quiet_rules, work-Quiet, after_work-Quiet) depth 8

        after_lock-Quiet :
            (taken : Result (Unit {0}))
            → Quiet is_trade (after_lock w prefix ctx params time run_id taken)
        unfolding after_lock
        after_lock-Quiet (ok _) = search (quiet_rules, guarded-Quiet, release_if-Quiet) depth 10
        after_lock-Quiet (err (lock_held message)) =
            search (quiet_rules, guarded-Quiet, release_if-Quiet, alert-Quiet) depth 12
        after_lock-Quiet (err _) = search quiet_rules

        locked_run-Quiet : Quiet is_trade (locked_run w prefix ctx params time run_id)
        unfolding locked_run
        locked_run-Quiet = search (quiet_rules, acquire_lock-Quiet, after_lock-Quiet) depth 8

        after_paper-Quiet :
            (bad : Reason) → Quiet is_trade (after_paper w prefix ctx params time run_id bad)
        unfolding after_paper after_calendar
        after_paper-Quiet (some reason) = search (quiet_rules, alert-Quiet) depth 8
        after_paper-Quiet none = search (quiet_rules, locked_run-Quiet) depth 10

        pub check_account-Quiet :
            (acct : Fields F) → Quiet is_trade (check_account w prefix ctx params time run_id acct)
        unfolding check_account
        check_account-Quiet acct = search after_paper-Quiet

module _ {F : Type 0} ⦃number : Number F⦄ (w : World F) where
  dry-IsQuietAfter :
      (dry_run : Bool) (strategy : String) → dry_run ≡ true → IsQuietAfter w dry_run strategy
  unfolding IsQuietAfter
  dry-IsQuietAfter dry_run strategy dry slot today topic time run_id params =
      search (quiet_rules, check_account-Quiet)

  -- A wakeup whose event asks for a dry run changes nothing at the broker, in any slot and for any
  -- strategy, whatever the model and the outside answer, and whether it returns or raises.
  pub handler-dry_run :
      (event : Fields F) (run_id : String) (s : Run F)
      → truthy (member "dry_run" event) ≡ true
      → keep_if is_trade (handler w (some (obj event)) run_id s).1.history
        ≡ keep_if is_trade s.history
  handler-dry_run event run_id s dry =
      (handler-Quiet w event run_id (dry-IsQuietAfter _ _ dry)).at s
