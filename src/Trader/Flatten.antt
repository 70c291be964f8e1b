-- ===== src/Trader/Flatten.antt =====
-- `_alert` and `_flatten` of handler.py.
pub mod Laws
use infra_lab.Base.{
  ℕ, zero, suc, String, Bool, true, false, List, [], ◌∷◌, if◌then◌else◌, is_empty, Result, ok, err,
  Exec,
}
use infra_lab.Base.Stateful.{pure, lift, ◌>>=◌, ◌>>◌}
use infra_lab.Base.Text.{◌<>◌, join}
use infra_lab.Base.Number.{Number}
use infra_lab.Base.Json.{Json, Fields, Items, end, field, bool, str, arr, none_left, item}
use infra_lab.Trader.World.{
  World, Run, send, positions, cancel_all_orders, close_all_positions, sleep,
}
use infra_lab.Trader.Notify.{send_notice}
use infra_lab.Trader.Tools.{Context, label, journal, held_symbols_of}

abbrev pub flatten_polls : ℕ
flatten_polls = 12

abbrev pub flatten_poll_seconds : ℕ
flatten_poll_seconds = 5

-- What `_flatten` returns: flat, with whether that was simulated, or the symbols that are left.
pub data Flattened : Type 0 where
  flat : Bool → Flattened
  still_open : List String → Flattened

abbrev texts : {F : Type 0} → List String → Items F
texts [] = none_left
texts (s ∷ ss) = item (str s) (texts ss)

-- `_alert`: the topic, the label, the title and the message.
unfoldable pub alert_to :
    {F : Type 0} (w : World F) → String → String → String → String → Exec (Run F) Bool
unfolding send_notice
alert_to w topic label title message =
    send_notice w topic ("[" <> (label <> ("] " <> title))) message 5

module _ {F : Type 0} ⦃number : Number F⦄ (w : World F) (prefix : String) (ctx : Context) where
  unfoldable pub alert : String → String → Exec (Run F) Bool
  unfolding alert_to label
  alert title message = alert_to w ctx.ntfy_topic (label ctx) title message

  -- After the last poll: the positions that are left are reported.
  unfoldable pub give_up : List (Fields F) → Exec (Run F) Flattened
  give_up remaining = do
    symbols ← lift (held_symbols_of remaining)
    journal w prefix ctx "error"
        (field "action" (str "flatten") (field "still_open" (arr (texts symbols)) end))
    alert "FLATTEN FAILED" ("Positions still open after retries: " <> join ", " symbols)
    pure (still_open symbols)

  abbrev pub wait : ℕ → Exec (Run F) (Unit {0})
  wait seconds = send (sleep seconds) (λ h. ok tt)

  -- What follows a poll, by the positions that are left; `later` is the next one.
  unfoldable pub after_poll : Exec (Run F) Flattened → List (Fields F) → Exec (Run F) Flattened
  after_poll later [] = do
    journal w prefix ctx "result" (field "action" (str "flatten") (field "flat" (bool true) end))
    pure (flat false)
  after_poll later (p ∷ ps) = do send close_all_positions w.close_all_positions; later

  unfoldable pub poll : ℕ → List (Fields F) → Exec (Run F) Flattened
  poll zero remaining = give_up remaining
  poll (suc rounds) remaining =
      wait flatten_poll_seconds
      >> (send positions w.positions >>= λ now. after_poll (poll rounds now) now)

  unfoldable pub flatten : Exec (Run F) Flattened
  unfolding poll
  flatten = do
    journal w prefix ctx "intent" (field "action" (str "flatten") end)
    if ctx.dry_run
        then (do
          journal w prefix ctx "result"
              (field "action" (str "flatten") (field "simulated" (bool true) end))
          pure (flat true))
        else do
          send cancel_all_orders w.cancel_all_orders
          send close_all_positions w.close_all_positions
          poll flatten_polls []
