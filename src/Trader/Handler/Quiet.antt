-- ===== src/Trader/Handler/Quiet.antt =====
-- The parts of a wakeup that change nothing at the broker, in a dry run or not.
use infra_lab.Base.{
  ℕ, zero, suc, String, Bool, Option, none, some, List, [], ◌∷◌, Result, ok, err, client, PyError,
  Exec,
}
use infra_lab.Base.Number.{Number}
use infra_lab.Base.Json.{Json}
use infra_lab.Trader.World.{World, Run}
use infra_lab.Trader.Store.{
  get_text, get_lines_text, tail_lines, read_lock, clear_expired, after_write, try_lock,
  acquire_lock, release_lock,
}
use infra_lab.Trader.Tools.{Context}
use infra_lab.Trader.Tools.Quiet.{Quiet, quiet_rules}
use infra_lab.Trader.Tools.DryRun.{is_trade, get_text-Quiet, get_json-Quiet}
use infra_lab.Trader.Tools.Simulated.{send_notice-Quiet}
use infra_lab.Trader.Flatten.{alert_to, alert}
use infra_lab.Trader.Handler.{
  secret, credentials, enabled_today, read_config, release_if, startup_alert,
}
use infra_lab.Trader.Handler.Session.{doc_of, load_doc, load_slot_doc, load_prompt_docs}

module _ {F : Type 0} ⦃number : Number F⦄ (w : World F) (prefix : String) where
  pub tail_lines-Quiet : (key : String) (n : ℕ) → Quiet is_trade (tail_lines w prefix key n)
  unfolding tail_lines get_lines_text get_text
  tail_lines-Quiet key n = search quiet_rules depth 10

  read_lock-Quiet : Quiet is_trade (read_lock w prefix)
  unfolding read_lock
  read_lock-Quiet = search (quiet_rules, get_json-Quiet)

  clear_expired-Quiet : (code : String) → Quiet is_trade (clear_expired w prefix code)
  unfolding clear_expired
  clear_expired-Quiet code = search (quiet_rules, read_lock-Quiet) depth 10

  after_write-Quiet :
      (outcome : Result (Unit {0})) (again : Exec (Run F) (Unit {0}))
      → Quiet is_trade again
      → Quiet is_trade (after_write w prefix outcome again)
  unfolding after_write
  after_write-Quiet (ok _) again q = search quiet_rules
  after_write-Quiet (err (client code)) again q = search (quiet_rules, clear_expired-Quiet)
  after_write-Quiet (err _) again q = search quiet_rules

  try_lock-Quiet : (rounds : ℕ) (body : String) → Quiet is_trade (try_lock w prefix rounds body)
  unfolding try_lock
  try_lock-Quiet zero body = search quiet_rules
  try_lock-Quiet (suc rounds) body =
      search (quiet_rules, after_write-Quiet, try_lock-Quiet rounds) depth 8

  -- Taking and giving back the lock.
  pub acquire_lock-Quiet :
      (run_id : String) (slot : ℕ) → Quiet is_trade (acquire_lock w prefix run_id slot)
  unfolding acquire_lock
  acquire_lock-Quiet run_id slot = search (quiet_rules, try_lock-Quiet)

  pub release_lock-Quiet : (run_id : String) → Quiet is_trade (release_lock w prefix run_id)
  unfolding release_lock
  release_lock-Quiet run_id = search (quiet_rules, read_lock-Quiet) depth 8

  doc_of-Quiet : (key : String) (found : Option String) → Quiet is_trade (doc_of w prefix key found)
  unfolding doc_of
  doc_of-Quiet key none = search quiet_rules
  doc_of-Quiet key (some text) = search quiet_rules

  load_doc-Quiet : (key : String) → Quiet is_trade (load_doc w prefix key)
  unfolding load_doc
  load_doc-Quiet key = search (quiet_rules, get_text-Quiet, doc_of-Quiet)

  load_slot_doc-Quiet :
      (slot : ℕ) (keys : List String) → Quiet is_trade (load_slot_doc w prefix slot keys)
  unfolding load_slot_doc
  load_slot_doc-Quiet slot [] = search quiet_rules
  load_slot_doc-Quiet slot (key ∷ keys) = search (quiet_rules, get_text-Quiet)

  pub load_prompt_docs-Quiet :
      (slot : ℕ) (cfg : String) → Quiet is_trade (load_prompt_docs w prefix slot cfg)
  unfolding load_prompt_docs
  load_prompt_docs-Quiet slot cfg =
      search (quiet_rules, load_doc-Quiet, load_slot_doc-Quiet) depth 14

module _ {F : Type 0} ⦃number : Number F⦄ (w : World F) where
  pub alert_to-Quiet :
      (prefix : String) (ctx : Context) (topic label title message : String)
      → Quiet is_trade (alert_to w topic label title message)
  unfolding alert_to
  alert_to-Quiet prefix ctx topic label title message = search (send_notice-Quiet w prefix ctx)

  pub secret-Quiet : (arn : String) → Quiet is_trade (secret w arn)
  unfolding secret
  secret-Quiet arn = search quiet_rules

  pub credentials-Quiet : (strategy : String) → Quiet is_trade (credentials w strategy)
  unfolding credentials
  credentials-Quiet strategy = search (quiet_rules, secret-Quiet) depth 12

module _ {F : Type 0} ⦃number : Number F⦄ (w : World F) (prefix : String) (ctx : Context) where
  pub alert-Quiet : (title message : String) → Quiet is_trade (alert w prefix ctx title message)
  unfolding alert
  alert-Quiet title message = search (alert_to-Quiet w prefix ctx)

  pub enabled_today-Quiet : (root : String) → Quiet is_trade (enabled_today w prefix ctx root)
  unfolding enabled_today
  enabled_today-Quiet root = search (quiet_rules, get_json-Quiet) depth 10

  pub read_config-Quiet : Quiet is_trade (read_config w prefix ctx)
  unfolding read_config
  read_config-Quiet = search (quiet_rules, get_json-Quiet)

  pub release_if-Quiet :
      (locked : Bool) (run_id : String) → Quiet is_trade (release_if w prefix ctx locked run_id)
  unfolding release_if
  release_if-Quiet locked run_id = search (quiet_rules, release_lock-Quiet)

  pub startup_alert-Quiet :
      (event : Option (Json F)) (e : PyError) → Quiet is_trade (startup_alert w event e)
  unfolding startup_alert
  startup_alert-Quiet event e =
      search (quiet_rules, secret-Quiet, alert_to-Quiet w prefix ctx) depth 12
