-- ===== src/Trader/Handler/Session.antt =====
-- The agent slots of handler.py: `_load_prompt_docs`, `_fallback_report` and `_run_agent`.
use infra_lab.Base.{
  ℕ, String, Bool, true, false, not, ◌&&◌, Option, none, some, List, [], ◌∷◌, map, if◌then◌else◌,
  length, Result, ok, err, runtime, key_error, value_error, or_raise, Exec,
}
use infra_lab.Base.Stateful.{pure, raise, lift, gets, ◌>>=◌, ◌>>◌}
use infra_lab.Base.Text.{◌<>◌, join, show_ℕ}
use infra_lab.Base.Number.{Number, truthy, get_text, divide}
use infra_lab.Base.Json.{Json, Fields, end, field, num, str, obj}
use infra_lab.Trader.Config.{Params}
use infra_lab.Trader.World.{World, Run, send, list_objects, converse}
use infra_lab.Trader.Store
use infra_lab.Trader.Store.{get_json, tail_lines}
use infra_lab.Trader.Notify.{send_notice}
use infra_lab.Trader.Tools.{Context, label, journal}
use infra_lab.Trader.Tools.Records.{is_report_slot}
use infra_lab.Trader.Tools.Dispatch.{call, account_report, position_report}
use infra_lab.Trader.Tools.Bind.{bind}
use infra_lab.Trader.Agent.{Session, Summary, Stopped, finished, cost_cap, turn_cap, run_agent}
use infra_lab.Trader.Flatten.{alert}

-- `SYSTEM_PREAMBLE`
abbrev pub system_preamble : String
system_preamble =
    "You are one wakeup of a continuing paper trading agent on an Alpaca paper "
    <> ("account. You are stateless: continuity comes only from the handoff and "
        <> ("journal you are given. Use the tools to act. Limits are enforced in code, "
            <> ("so a guardrail rejection is final for that request; adapt, do not retry the "
                <> ("same call. Always finish by calling save_handoff, even on a no-trade run. "
                    <> "Reports go out only through send_report in the report slots."))))

-- `_env`
abbrev pub env : {F : Type 0} → World F → String → Result String
env w name = or_raise key_error (w.environ name)

abbrev pub stopped_text : Stopped → String
stopped_text finished = "finished"
stopped_text cost_cap = "cost_cap"
stopped_text turn_cap = "turn_cap"

abbrev pub has_finished : Stopped → Bool
has_finished finished = true
has_finished stopped = false

abbrev or_none_text : Option String → String
or_none_text none = "None"
or_none_text (some text) = text

module _ {F : Type 0} where
  -- The summary of a run as a dict.
  pub summary_fields : Summary F → Fields F
  summary_fields result = field "stopped" (str (stopped_text result.stopped)) (
      field "turns" (num result.turns)
        (field "cost_usd" (num result.cost_usd) (field "final_text" (str result.final_text) end)))

  abbrev members_of : Json F → Fields F
  members_of (obj d) = d
  members_of v = end

module _ {F : Type 0} ⦃number : Number F⦄ (w : World F) (prefix : String) where
  -- A document that was read, under its heading.
  unfoldable pub doc_of : String → Option String → Exec (Run F) String
  doc_of key none = raise (runtime ("missing private config object " <> key))
  doc_of key (some text) = pure ("## " <> (key <> ("\n" <> text)))

  -- One round of the loop over the names.
  unfoldable pub load_doc : String → Exec (Run F) String
  unfolding doc_of
  load_doc key = Store.get_text w prefix key none true >>= doc_of key

  -- The prompt of the slot: the first key of the listing.
  unfoldable pub load_slot_doc : ℕ → List String → Exec (Run F) String
  load_slot_doc slot [] = raise (runtime ("missing prompt for slot " <> show_ℕ slot))
  load_slot_doc slot (key ∷ keys) = do
    text ← Store.get_text w prefix key none true
    pure ("## " <> (key <> ("\n" <> or_none_text text)))

  unfoldable pub load_prompt_docs : ℕ → String → Exec (Run F) String
  unfolding load_doc load_slot_doc
  load_prompt_docs slot cfg = do
    strategy ← load_doc (cfg <> "STRATEGY.md")
    guardrails ← load_doc (cfg <> "GUARDRAILS.md")
    common ← load_doc (cfg <> "prompts/COMMON.md")
    let slot_prefix = cfg <> ("prompts/slot-" <> (show_ℕ slot <> "-"))
    keys ← send (list_objects slot_prefix) (λ h. w.list_objects h slot_prefix)
    prompt ← load_slot_doc slot keys
    pure (join "\n\n" (strategy ∷ guardrails ∷ common ∷ prompt ∷ []))

module _ {F : Type 0} ⦃number : Number F⦄ (w : World F) (prefix : String) (ctx : Context) where
  module _ (params : Params F) where
    -- The model and the tools, as the calls that a run makes.
    unfoldable pub session : Session (Run F) F
    unfolding bind
    session = record {
      converse = λ request. send (converse request) (λ h. w.converse h request);
      call = λ name args. call w prefix ctx params (bind name args);
    }

    unfoldable pub report_lines : Fields F → List (Fields F) → List String
    report_lines acct positions =
        ("Equity "
          <> (get_text "equity" "None" acct <> (", day P&L " <> get_text "day_pnl" "None" acct)))
        ∷ ("Open positions: " <> show_ℕ (length positions))
        ∷ map (λ p. get_text "symbol" "None" p <> (": " <> get_text "unrealized_pl" "None" p))
            positions

    unfoldable pub fallback_report : Exec (Run F) Bool
    unfolding report_lines label
    fallback_report = do
      acct ← account_report w prefix ctx params
      positions ← position_report w prefix ctx
      send_notice w ctx.ntfy_topic
          ((if ctx.dry_run then "[DRY RUN] " else "")
            <> ("[" <> (label ctx <> "] Paper trading report (auto)")))
          (join "\n" (report_lines (members_of acct) positions)) 3

    unfoldable pub user_text : String → Json F → List String → String
    unfolding label
    user_text time handoff tail =
        (if ctx.dry_run
          then "THIS IS A DRY RUN: orders and stop changes are simulated and state is "
            <> "isolated. Work as normal, and do not question why the run fired.\n"
          else "")
        <> ("Date "
            <> (ctx.day
                <> (", time "
                    <> (time
                        <> (" ET. You are running slot "
                            <> (show_ℕ ctx.slot
                                <> (" for strategy "
                                    <> (label ctx
                                        <> (".\nLast handoff:\n"
                                            <> (w.dumps_indent handoff
                                                <> ("\n\nToday's journal so far (most recent lines):\n"
                                                    <> join "\n" tail)))))))))))

    -- `float(_env(name)) / 1e6`
    unfoldable pub price : String → Result F
    price name = elim (env w name) [
      | err e ↦ err e
      | ok text ↦ elim (number.parse text) [
        | none ↦ err value_error
        | some x ↦ divide x (number.decimal 1000000 0)
      ]
    ]

    unfoldable pub alert_early : Summary F → Exec (Run F) (Unit {0})
    unfolding summary_fields
    alert_early result =
        if has_finished result.stopped
        then pure tt
        else alert w prefix ctx ("Run stopped early (slot " <> (show_ℕ ctx.slot <> ")"))
            (w.dumps (obj (summary_fields result)))
          >> pure tt

    unfoldable pub report_late : Bool → Exec (Run F) (Unit {0})
    report_late report_sent =
        if is_report_slot ctx.slot && not report_sent then fallback_report >> pure tt else pure tt

    -- `value or {}`
    abbrev handoff_or_empty : Option (Json F) → Json F
    handoff_or_empty none = obj end
    handoff_or_empty (some v) = if truthy (some v) then v else obj end

    -- What follows the loop of the agent.
    unfoldable pub after_agent : Summary F → Exec (Run F) (Summary F)
    unfolding alert_early report_late summary_fields
    after_agent result = do
      journal w prefix ctx "run_summary" (summary_fields result)
      alert_early result
      report_sent ← gets (λ s. s.report_sent)
      report_late report_sent
      pure result

    -- `_run_agent`: the time of day, the S3 root of the config.
    unfoldable pub run_slot : String → String → Exec (Run F) (Summary F)
    unfolding session price user_text after_agent load_prompt_docs
    run_slot time cfg = do
      docs ← load_prompt_docs w prefix ctx.slot cfg
      handoff ← get_json w prefix "state/progress.json" (some (obj end)) false
      tail ← tail_lines w prefix ("journal/" <> (ctx.day <> ".jsonl")) 30
      in_price ← lift (price "MODEL_INPUT_USD_PER_MTOK")
      out_price ← lift (price "MODEL_OUTPUT_USD_PER_MTOK")
      model ← lift (env w "MODEL_ID")
      result ←
          run_agent session in_price out_price (system_preamble <> ("\n\n" <> docs)) params
            (user_text time (handoff_or_empty handoff) tail)
      after_agent result
