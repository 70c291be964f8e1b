-- ===== src/Trader/Handler/Lock.antt =====
-- The lock of a run in `_run` of handler.py: what a run without it does, and that it is given back.
use infra_lab.Base.{
  some, ◌∷◌, String, ◌≡◌, refl, ap, ◌∙◌, List, ◌==◌, Bool, true, false, not, keep_if, if◌then◌else◌,
  ok, err, lock_held, Exec,
}
use infra_lab.Base.Stateful.{pure, lift, finally, bind-ends, bind-after}
use infra_lab.Base.Text.{◌<>◌, is_blank, show_ℕ}
use infra_lab.Base.Number.{Number}
use infra_lab.Trader.Config.{Params}
use infra_lab.Trader.World.{World, Call, Run, send, get_object, delete_object}
use infra_lab.Trader.Store.{lock_name, acquire_lock, release_lock}
use infra_lab.Trader.Store.Lock.{release_lock-history}
use infra_lab.Base.Json.{Fields, obj, member, is_str}
use infra_lab.Trader.Notify.{send_notice}
use infra_lab.Trader.Tools.{Context}
use infra_lab.Trader.Tools.DryRun.{is_trade}
use infra_lab.Trader.Flatten.{alert_to, alert}
use infra_lab.Trader.Handler.{
  Answer, refused, flatten_slot, guarded, release_if, after_lock, locked_run,
}
use infra_lab.Trader.Handler.Quiet.{acquire_lock-Quiet, alert-Quiet}

notice_returns :
    {F : Type 0} (blank : Bool) (call : Call F) (reply : List (Call F) → Bool) (t : Run F)
    → (b : Bool) × (((if blank then pure false else send call (λ h. ok (reply h))) t).0 ≡ ok b)
notice_returns true call reply t = (false, refl)
notice_returns false call reply t = (reply t.history, refl)

-- The state that is left is the one of the cleanup.
finally-state :
    {S A : Type 0} (m : Exec S A) (cleanup : Exec S (Unit {0})) (s : S)
    → (finally m cleanup s).1 ≡ (cleanup (m s).1).1
finally-state m cleanup s =
    bind-ends (λ x. x.1 ≡ (cleanup (m s).1).1) cleanup (λ _. lift (m s).0) (m s).1
      (λ e raised. refl) (λ a returned. refl)

if_not : {F A : Type 0} (b : Bool) (m n : Exec (Run F) A) → b ≡ false → (if not b then m else n) ≡ m
if_not true m n h = cc
if_not false m n h = refl

module _ {F : Type 0} ⦃number : Number F⦄ (w : World F) (prefix : String) (ctx : Context) where
  -- An alert never raises.
  alert_returns :
      (title message : String) (t : Run F)
      → (b : Bool) × ((alert w prefix ctx title message t).0 ≡ ok b)
  unfolding alert alert_to send_notice
  alert_returns title message t = notice_returns (is_blank ctx.ntfy_topic) _ _ t

  module _ (params : Params F) (time run_id : String) where
    locked_run-after :
        (s : Run F)
        → locked_run w prefix ctx params time run_id s
          ≡ after_lock w prefix ctx params time run_id
              (acquire_lock w prefix run_id ctx.slot s).0
              (acquire_lock w prefix run_id ctx.slot s).1
    unfolding locked_run
    locked_run-after s = refl

    abbrev held_text : String → String
    held_text message = "slot " <> (show_ℕ ctx.slot <> (": " <> message))

    -- Without the lock, in another slot, there is the alert and the answer.
    held-eq :
        (message : String) (t : Run F)
        → (ctx.slot == flatten_slot) ≡ false
        → after_lock w prefix ctx params time run_id (err (lock_held message)) t ≡ (
          ok (refused message),
          (alert w prefix ctx "Run skipped: lock held" (held_text message) t).1,
        )
    unfolding after_lock
    held-eq message t no_flatten =
        let (b, h) = alert_returns "Run skipped: lock held" (held_text message) t in
        let go_on : Exec (Run F) (Answer F) =
          finally (guarded w prefix ctx params time run_id)
            (release_if w prefix ctx false run_id) in
        bind-after (alert w prefix ctx "Run skipped: lock held" (held_text message))
          (λ _. if not (ctx.slot == flatten_slot) then pure (refused message) else go_on) t b h
        ∙ ap
            (λ (m : Exec (Run F) (Answer F)).
              m (alert w prefix ctx "Run skipped: lock held" (held_text message) t).1)
            (if_not (ctx.slot == flatten_slot) (pure (refused message)) go_on no_flatten)

    -- In another slot than the flatten slot, where `acquire_lock` raises LockHeldError: the run answers
    -- with that error, and changes nothing at the broker.
    pub locked_run-held :
        (message : String) (s : Run F)
        → (ctx.slot == flatten_slot) ≡ false
        → (acquire_lock w prefix run_id ctx.slot s).0 ≡ err (lock_held message)
        → ((locked_run w prefix ctx params time run_id s).0 ≡ ok (refused message))
          × (keep_if is_trade (locked_run w prefix ctx params time run_id s).1.history
              ≡ keep_if is_trade s.history)
    locked_run-held message s no_flatten held =
        let t = (acquire_lock w prefix run_id ctx.slot s).1 in
        rw (locked_run-after s, held, held-eq message t no_flatten)
          (
            refl,
            (alert-Quiet w prefix ctx "Run skipped: lock held" (held_text message)).at t
                ∙ (acquire_lock-Quiet w prefix run_id ctx.slot).at s,
          )

    -- A run that has taken the lock, and after whose work, whatever it was and whether it raised, the
    -- bucket still has a lock that parses: its last calls read that lock and, where it names this run,
    -- delete it. A lock of another run stays.
    pub locked_run-release :
        (s : Run F) (text : String) (current : Fields F)
        → (acquire_lock w prefix run_id ctx.slot s).0 ≡ ok tt
        → let t = (acquire_lock w prefix run_id ctx.slot s).1 in
          let worked = (guarded w prefix ctx params time run_id t).1.history in
          let key = prefix <> lock_name in
          w.get_object worked key ≡ ok (some text)
          → w.loads text ≡ ok (obj current)
          → (locked_run w prefix ctx params time run_id s).1.history ≡ (
              if is_str run_id (member "run_id" current)
              then delete_object key ∷ get_object key ∷ worked
              else get_object key ∷ worked)
    unfolding after_lock release_if
    locked_run-release s text current taken found parsed =
        let t = (acquire_lock w prefix run_id ctx.slot s).1 in
        rw (locked_run-after s, taken)
          (ap (λ (x : Run F). x.history)
              (finally-state (guarded w prefix ctx params time run_id)
                (release_lock w prefix run_id) t)
            ∙ release_lock-history w prefix run_id text current
                (guarded w prefix ctx params time run_id t).1 found parsed)
