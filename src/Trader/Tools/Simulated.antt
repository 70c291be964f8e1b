-- ===== src/Trader/Tools/Simulated.antt =====
-- In a dry run no tool of tools.py changes anything at the broker.
use infra_lab.Base.{
  ℕ, String, ◌≡◌, none, some, refl, Bool, true, false, List, [], ◌∷◌, Result, ok, err, http,
  keep_if,
}
use infra_lab.Base.Number.{Number}
use infra_lab.Base.Json.{Json, obj, null, str}
use infra_lab.Trader.Config.{Params}
use infra_lab.Trader.Guardrails.{Sizing, Verdict, enter, refuse, Reason}
use infra_lab.Trader.World.{World, Run}
use infra_lab.Trader.Store.{put_text, put_json}
use infra_lab.Trader.Notify.{send_notice}
use infra_lab.Trader.Tools.{Context, ActiveOrder}
use infra_lab.Trader.Tools.Quiet.{Quiet, quiet_rules, Quiet-if_true, Quiet-modify}
use infra_lab.Trader.Tools.DryRun.{is_trade, journal-Quiet, gather_facts-Quiet, active_orders-Quiet}
use infra_lab.Trader.Tools.Orders.{place_bracket_order, place_sized, act_on, count_order}
use infra_lab.Trader.Tools.Positions.{move_stop_to, close_position, move_first, replace_stop}
use infra_lab.Trader.Tools.Records.{
  journal_note, put_content, sized_evidence, save_evidence, store_evidence, notice, save_handoff,
  send_report, mark_report,
}
use infra_lab.Trader.Tools.Market.Reads.{
  get_movers-Quiet, scan_universe-Quiet, get_most_actives-Quiet, get_snapshots-Quiet,
  get_bars-Quiet, get_news-Quiet, check_symbol-Quiet,
}
use infra_lab.Trader.Tools.Dispatch.{
  Tool, get_account, run_tool, call, caught, account_report, open_orders, position_report,
}

ruleset dry_rules = (Quiet-if_true, quiet_rules, journal-Quiet, active_orders-Quiet)

module _ {F : Type 0} ⦃number : Number F⦄ (w : World F) (prefix : String) (ctx : Context) where
  pub count_order-Quiet : Quiet is_trade (count_order w prefix ctx)
  unfolding count_order
  count_order-Quiet = Quiet-modify _ (λ s. refl)

  journal_note-Quiet :
      (kind : String) (text : Json F) → Quiet is_trade (journal_note w prefix ctx kind text)
  unfolding journal_note
  journal_note-Quiet kind text = search dry_rules

  pub put_text-Quiet :
      (key text : String) (b : Bool) → Quiet is_trade (put_text w prefix key text b)
  unfolding put_text
  put_text-Quiet key text b = search dry_rules

  put_content-Quiet :
      (key : String) (content : Json F) → Quiet is_trade (put_content w prefix ctx key content)
  unfolding put_content
  put_content-Quiet key (str content) = put_text-Quiet key content false
  put_content-Quiet key null = search quiet_rules
  put_content-Quiet key _ = search quiet_rules

  store_evidence-Quiet :
      (name : String) (content : Json F) → Quiet is_trade (store_evidence w prefix ctx name content)
  unfolding store_evidence
  store_evidence-Quiet name content =
      search (quiet_rules, journal-Quiet, put_content-Quiet) depth 10

  save_evidence-Quiet :
      (name content : Json F) → Quiet is_trade (save_evidence w prefix ctx name content)
  unfolding save_evidence sized_evidence
  save_evidence-Quiet (str name) content = search (quiet_rules, store_evidence-Quiet) depth 8
  save_evidence-Quiet null content = search quiet_rules
  save_evidence-Quiet _ content = search quiet_rules

  save_handoff-Quiet : (h : Json F) → Quiet is_trade (save_handoff w prefix ctx h)
  unfolding save_handoff put_json
  save_handoff-Quiet (obj h) = search dry_rules depth 10
  save_handoff-Quiet null = search dry_rules
  save_handoff-Quiet _ = search dry_rules

  mark_report-Quiet : (sent : Bool) → Quiet is_trade (mark_report w prefix ctx sent)
  unfolding mark_report
  mark_report-Quiet sent = Quiet-modify _ (λ s. refl)

  pub send_notice-Quiet :
      (topic title message : String) (n : ℕ) → Quiet is_trade (send_notice w topic title message n)
  unfolding send_notice
  send_notice-Quiet topic title message n = search quiet_rules

  notice-Quiet :
      (title : String) (message : Json F) → Quiet is_trade (notice w prefix ctx title message)
  unfolding notice
  notice-Quiet title (str message) = send_notice-Quiet ctx.ntfy_topic title message 3
  notice-Quiet title null = search quiet_rules
  notice-Quiet title _ = search quiet_rules

  send_report-Quiet :
      (title message : Json F) → Quiet is_trade (send_report w prefix ctx title message)
  unfolding send_report
  send_report-Quiet title message = search (quiet_rules, notice-Quiet, mark_report-Quiet) depth 8

  pub account_report-Quiet :
      (params : Params F) → Quiet is_trade (account_report w prefix ctx params)
  unfolding account_report
  account_report-Quiet params = search quiet_rules

  open_orders-Quiet : Quiet is_trade (open_orders w prefix ctx)
  unfolding open_orders
  open_orders-Quiet = search dry_rules

  pub position_report-Quiet : Quiet is_trade (position_report w prefix ctx)
  unfolding position_report
  position_report-Quiet = search quiet_rules

  caught-Quiet : (r : Result (Json F)) → Quiet is_trade (caught w prefix ctx r)
  unfolding caught
  caught-Quiet (ok v) = search quiet_rules
  caught-Quiet (err (http status body)) = search quiet_rules
  caught-Quiet (err _) = search quiet_rules

  module _ (dry : ctx.dry_run ≡ true) where
    place_sized-Quiet :
        (symbol : String) (sizing : Sizing F)
        → Quiet is_trade (place_sized w prefix ctx symbol sizing)
    unfolding place_sized
    place_sized-Quiet symbol sizing = search (dry_rules, count_order-Quiet) depth 10

    act_on-Quiet :
        (symbol : String) (entry stop : F) (v : Verdict F)
        → Quiet is_trade (act_on w prefix ctx symbol entry stop v)
    unfolding act_on
    act_on-Quiet symbol entry stop (refuse reason) = search dry_rules
    act_on-Quiet symbol entry stop (enter sizing) = place_sized-Quiet symbol sizing

    place-Quiet :
        (params : Params F) (symbol entry stop : Json F)
        → Quiet is_trade (place_bracket_order w prefix ctx params symbol entry stop)
    unfolding place_bracket_order
    place-Quiet params symbol entry stop =
        search (quiet_rules, gather_facts-Quiet, act_on-Quiet) depth 12

    replace_stop-Quiet :
        (symbol : String) (stop : F) (o : ActiveOrder F) (reason : Reason)
        → Quiet is_trade (replace_stop w prefix ctx symbol stop o reason)
    unfolding replace_stop
    replace_stop-Quiet symbol stop o (some reason) = search dry_rules
    replace_stop-Quiet symbol stop o none = search dry_rules

    move_first-Quiet :
        (symbol : String) (stop : F) (os : List (ActiveOrder F))
        → Quiet is_trade (move_first w prefix ctx symbol stop os)
    unfolding move_first
    move_first-Quiet symbol stop [] = search dry_rules
    move_first-Quiet symbol stop (o ∷ os) = search (quiet_rules, replace_stop-Quiet) depth 8

    move_stop_to-Quiet :
        (symbol stop : Json F) → Quiet is_trade (move_stop_to w prefix ctx symbol stop)
    unfolding move_stop_to
    move_stop_to-Quiet symbol stop = search (dry_rules, move_first-Quiet) depth 8

    close_position-Quiet :
        (symbol reason : Json F) → Quiet is_trade (close_position w prefix ctx symbol reason)
    unfolding close_position
    close_position-Quiet symbol reason = search dry_rules depth 8

    run_tool-Quiet :
        (params : Params F) (tool : Tool F) → Quiet is_trade (run_tool w prefix ctx params tool)
    unfolding run_tool
    run_tool-Quiet params get_account = account_report-Quiet params
    run_tool-Quiet params _ = search (
      quiet_rules, position_report-Quiet, open_orders-Quiet, place-Quiet, move_stop_to-Quiet,
      close_position-Quiet, journal_note-Quiet, save_evidence-Quiet, save_handoff-Quiet,
      send_report-Quiet, get_movers-Quiet, scan_universe-Quiet, get_most_actives-Quiet,
      get_snapshots-Quiet, get_bars-Quiet, get_news-Quiet, check_symbol-Quiet,
    )

  -- The same of one call, as a rule for longer code.
  pub call-Quiet :
      ctx.dry_run ≡ true
      → (params : Params F) (tool : Tool F) → Quiet is_trade (call w prefix ctx params tool)
  unfolding call
  call-Quiet dry params tool = search (quiet_rules, run_tool-Quiet dry, caught-Quiet) depth 8

  -- In a dry run whatever tool the model calls, with whatever arguments, and whether the call returns
  -- or raises: the calls that change orders or positions at the broker are those of before.
  pub call-dry_run :
      ctx.dry_run ≡ true
      → (params : Params F) (tool : Tool F) (s : Run F)
      → keep_if is_trade (call w prefix ctx params tool s).1.history ≡ keep_if is_trade s.history
  call-dry_run dry params tool s = (call-Quiet dry params tool).at s
