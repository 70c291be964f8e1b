-- ===== src/Trader/Handler/Gates.antt =====
-- What has to hold before a wakeup of handler.py trades: the paper account and the open market.
use infra_lab.Base.{
  String, ◌≡◌, refl, ◌∙◌, Bool, false, none, some, List, [], keep_if, Result, ok, Exec,
}
use infra_lab.Base.Stateful.{◌>>=◌, bind-ends}
use infra_lab.Base.Number.{Number, truthy}
use infra_lab.Base.Json.{Json, Fields, obj, member}
use infra_lab.Trader.Config.{Params}
use infra_lab.Trader.Guardrails.{Reason, paper_check}
use infra_lab.Trader.World.{World, Call, Run, send, account, calendar}
use infra_lab.Trader.Strategy.{store_prefix}
use infra_lab.Trader.Tools.{Context}
use infra_lab.Trader.Tools.Quiet.{Quiet, quiet_rules, Quiet-if_false}
use infra_lab.Trader.Tools.DryRun.{is_trade}
use infra_lab.Trader.Api.{trading_url}
use infra_lab.Trader.Handler.{context_of, after_calendar, after_paper, check_account, handler}
use infra_lab.Trader.Handler.Quiet.{alert-Quiet}
use infra_lab.Trader.Handler.Start.{IsQuietAfter, handler-Quiet}

module _ {F A B : Type 0} {p : Call F → Bool} where
  -- What follows a call has to be quiet for the replies that it can have.
  Quiet-reply :
      (call : Call F) (reply : List (Call F) → Result A) (f : A → Exec (Run F) B)
      → p call ≡ false
      → ((h : List (Call F)) (a : A) → reply h ≡ ok a → Quiet p (f a))
      → Quiet p (send call reply >>= f)
  Quiet-reply call reply f h q = record {
    at = λ s.
        bind-ends (λ x. keep_if p x.1.history ≡ keep_if p s.history) (send call reply) f s
          (λ e raised. rw h refl)
          (λ a returned. (q s.history a returned).at (send call reply s).1 ∙ rw h refl);
  }

module _ {F : Type 0} ⦃number : Number F⦄ (w : World F) where
  -- Every account that the broker answers with fails the paper check.
  unfoldable pub IsLive : Type 0
  IsLive =
      (h : List (Call F)) (acct : Fields F)
      → w.account h ≡ ok acct
      → (bad : String) × (paper_check trading_url acct ≡ some bad)

  -- Every calendar that the broker answers with is empty.
  unfoldable pub IsClosed : Type 0
  IsClosed =
      (h : List (Call F)) (day : String) (entries : List (Json F))
      → w.calendar h day ≡ ok entries
      → entries ≡ []

  module _ (prefix : String) (ctx : Context) (params : Params F) (time run_id : String) where
    refused-Quiet :
        (acct : Fields F) (bad : String)
        → paper_check trading_url acct ≡ some bad
        → Quiet is_trade (check_account w prefix ctx params time run_id acct)
    unfolding check_account after_paper
    refused-Quiet acct bad h = rw h (search (quiet_rules, alert-Quiet))

    closed-Quiet :
        (entries : List (Json F))
        → entries ≡ []
        → Quiet is_trade (after_calendar w prefix ctx params time run_id entries)
    unfolding after_calendar
    closed-Quiet entries h = rw h (search quiet_rules)

    after_paper-Quiet :
        ctx.dry_run ≡ false
        → IsClosed
        → (bad : Reason) → Quiet is_trade (after_paper w prefix ctx params time run_id bad)
    unfolding after_paper IsClosed
    after_paper-Quiet wet closed (some bad) = search (quiet_rules, alert-Quiet)
    after_paper-Quiet wet closed none = Quiet-if_false ctx.dry_run _ _ wet (
        Quiet-reply (calendar ctx.day) (λ h. w.calendar h ctx.day)
          (after_calendar w prefix ctx params time run_id) refl
          (λ h entries answered. closed-Quiet entries (closed h ctx.day entries answered)))

  live-IsQuietAfter :
      IsLive → (dry_run : Bool) (strategy : String) → IsQuietAfter w dry_run strategy
  unfolding IsQuietAfter IsLive
  live-IsQuietAfter live dry_run strategy slot today topic time run_id params =
      let prefix = store_prefix dry_run strategy in
      let ctx = context_of w slot dry_run strategy today topic in
      Quiet-reply account w.account (check_account w prefix ctx params time run_id) refl
        (λ h acct answered.
          let (bad, failed) = live h acct answered in
          refused-Quiet prefix ctx params time run_id acct bad failed)

  closed-IsQuietAfter :
      IsClosed
      → (dry_run : Bool) (strategy : String) → dry_run ≡ false
      → IsQuietAfter w dry_run strategy
  unfolding IsQuietAfter check_account
  closed-IsQuietAfter closed dry_run strategy wet slot today topic time run_id params =
      search (quiet_rules, after_paper-Quiet)

  -- Where every account that the broker answers with fails the paper check: no wakeup changes anything
  -- at the broker, whatever its event.
  pub handler-IsLive :
      (event : Fields F) (run_id : String) (s : Run F)
      → IsLive
      → keep_if is_trade (handler w (some (obj event)) run_id s).1.history
        ≡ keep_if is_trade s.history
  handler-IsLive event run_id s live =
      (handler-Quiet w event run_id (live-IsQuietAfter live _ _)).at s

  -- Where every calendar that the broker answers with is empty: no wakeup without `dry_run` changes
  -- anything at the broker.
  pub handler-IsClosed :
      (event : Fields F) (run_id : String) (s : Run F)
      → IsClosed
      → truthy (member "dry_run" event) ≡ false
      → keep_if is_trade (handler w (some (obj event)) run_id s).1.history
        ≡ keep_if is_trade s.history
  handler-IsClosed event run_id s closed wet =
      (handler-Quiet w event run_id (closed-IsQuietAfter closed _ _ wet)).at s
