-- ===== src/Trader/Flatten/Laws.antt =====
-- What `_flatten` of handler.py reports.
use infra_lab.Base.{
  ℕ, zero, suc, String, ◌≡◌, Bool, true, false, List, [], ◌∷◌, if◌then◌else◌, Result, ok, err, Exec,
}
use mathlib.Core.Path.{subst}
use infra_lab.Base.Stateful.{pure, lift, bind-ends, ◌>>=◌}
use infra_lab.Base.Number.{Number}
use infra_lab.Base.Json.{Fields}
use infra_lab.Trader.World.{World, Call, Run, send, positions, close_all_positions, sleep}
use infra_lab.Trader.Store.{append_jsonl, get_lines_text, put_text, get_text}
use infra_lab.Trader.Tools.{Context, journal}
use infra_lab.Trader.Tools.Quiet.{Quiet, quiet_rules, Quiet-if_true}
use infra_lab.Trader.Tools.DryRun.{is_trade, journal-Quiet}
use infra_lab.Trader.Flatten.{
  Flattened, flat, still_open, give_up, after_poll, poll, flatten, flatten_poll_seconds,
}

module _ {F : Type 0} ⦃number : Number F⦄ (w : World F) (prefix : String) (ctx : Context) where
  -- In a dry run `_flatten` changes nothing at the broker.
  pub flatten-Quiet : ctx.dry_run ≡ true → Quiet is_trade (flatten w prefix ctx)
  unfolding flatten
  flatten-Quiet dry = search (Quiet-if_true, quiet_rules, journal-Quiet) depth 10

  -- Somewhere in the calls the broker was asked for its positions, and had none.
  pub data SawNone : List (Call F) → Type 0 where
    here : {before : List (Call F)} → w.positions before ≡ ok [] → SawNone (positions ∷ before)
    later : {before : List (Call F)} (c : Call F) → SawNone before → SawNone (c ∷ before)

  -- `m` makes calls only, so what was seen stays seen.
  record Remembers {A : Type 0} (m : Exec (Run F) A) : Type 0 where
    at : (s : Run F) → SawNone s.history → SawNone (m s).1.history

  Remembers-lift : {A : Type 0} (r : Result A) → Remembers (lift r)
  Remembers-lift r = record { at = λ s saw. saw }

  Remembers-pure : {A : Type 0} (a : A) → Remembers (pure a)
  Remembers-pure a = record { at = λ s saw. saw }

  Remembers-send :
      {A : Type 0} (c : Call F) (reply : List (Call F) → Result A) → Remembers (send c reply)
  Remembers-send c reply = record { at = λ s saw. later c saw }

  Remembers-bind :
      {A B : Type 0} (m : Exec (Run F) A) (f : A → Exec (Run F) B)
      → Remembers m
      → ((a : A) → Remembers (f a))
      → Remembers (m >>= f)
  Remembers-bind m f q r = record {
    at = λ s saw.
        bind-ends (λ x. SawNone x.1.history) m f s (λ e raised. q.at s saw)
          (λ a returned. (r a).at (m s).1 (q.at s saw));
  }

  journal-Remembers :
      (kind : String) (fields : Fields F) → Remembers (journal w prefix ctx kind fields)
  unfolding journal append_jsonl get_lines_text put_text get_text
  journal-Remembers kind fields =
      search (Remembers-lift, Remembers-pure, Remembers-send, Remembers-bind) depth 14

  -- An outcome is fair if it says that all is flat, be it simulated, only after the broker had no
  -- positions.
  pub Fair : Result Flattened → List (Call F) → Type 0
  Fair (ok (flat b)) history = SawNone history
  Fair r history = Unit {0}

  record IsFair (m : Exec (Run F) Flattened) : Type 0 where
    at : (s : Run F) → Fair (m s).0 (m s).1.history

  IsFair-bind :
      {A : Type 0} (m : Exec (Run F) A) (f : A → Exec (Run F) Flattened)
      → ((a : A) → IsFair (f a))
      → IsFair (m >>= f)
  unfolding Fair
  IsFair-bind m f r = record {
    at = λ s.
        bind-ends (λ x. Fair x.0 x.1.history) m f s (λ e raised. tt)
          (λ a returned. (r a).at (m s).1);
  }

  IsFair-if :
      (b : Bool) (m n : Exec (Run F) Flattened) → b ≡ false → IsFair n → IsFair (if b then m else n)
  IsFair-if true m n h r = cc
  IsFair-if false m n h r = r

  IsFair-open : (symbols : List String) → IsFair (pure (still_open symbols))
  unfolding Fair
  IsFair-open symbols = record { at = λ s. tt }

  give_up-IsFair : (remaining : List (Fields F)) → IsFair (give_up w prefix ctx remaining)
  unfolding give_up
  give_up-IsFair remaining = search (IsFair-bind, IsFair-open)

  -- Once the broker has had no positions, any outcome is fair.
  remembering_IsFair :
      (m : Exec (Run F) Flattened) (s : Run F)
      → Remembers m
      → SawNone s.history
      → Fair (m s).0 (m s).1.history
  unfolding Fair
  remembering_IsFair m s q saw = go (m s).0 (q.at s saw)
    where
      go : (r : Result Flattened) {h : List (Call F)} → SawNone h → Fair r h
      go (ok (flat b)) saw = saw
      go (ok (still_open symbols)) saw = tt
      go (err e) saw = tt

  after_poll-IsFair :
      (again : Exec (Run F) Flattened) (now : List (Fields F)) (s : Run F)
      → IsFair again
      → w.positions s.history ≡ ok now
      → let t = record s { history = positions ∷ s.history } in
        Fair (after_poll w prefix ctx again now t).0 (after_poll w prefix ctx again now t).1.history
  unfolding after_poll
  after_poll-IsFair again [] s fair found =
      remembering_IsFair (after_poll w prefix ctx again [])
        (record s { history = positions ∷ s.history })
        (search (Remembers-bind, Remembers-pure, journal-Remembers)) (here found)
  after_poll-IsFair again (p ∷ ps) s fair found =
      (IsFair-bind (send close_all_positions w.close_all_positions) (λ _. again) (λ _. fair)).at
        (record s { history = positions ∷ s.history })

  poll-IsFair :
      (rounds : ℕ) (remaining : List (Fields F)) → IsFair (poll w prefix ctx rounds remaining)
  unfolding poll Fair
  poll-IsFair zero remaining = give_up-IsFair remaining
  poll-IsFair (suc rounds) remaining = record {
    at = λ s.
        let t : Run F = record s { history = sleep flatten_poll_seconds ∷ s.history } in
        bind-ends (λ x. Fair x.0 x.1.history) (send positions w.positions)
          (λ now. after_poll w prefix ctx (poll w prefix ctx rounds now) now) t (λ e raised. tt)
          (λ now found.
            after_poll-IsFair (poll w prefix ctx rounds now) now t (poll-IsFair rounds now) found);
  }

  flatten-IsFair : ctx.dry_run ≡ false → IsFair (flatten w prefix ctx)
  unfolding flatten
  flatten-IsFair wet = search (IsFair-bind, IsFair-if, poll-IsFair)

  -- In a run that is not dry `_flatten` answers that the account is flat, marked as simulated or not,
  -- only if, at some time in the run, the broker was asked for its positions and had none.
  pub flatten-SawNone :
      ctx.dry_run ≡ false
      → (simulated : Bool) (s : Run F) → (flatten w prefix ctx s).0 ≡ ok (flat simulated)
      → SawNone (flatten w prefix ctx s).1.history
  unfolding Fair
  flatten-SawNone wet simulated s h =
      subst (λ r. Fair r (flatten w prefix ctx s).1.history) h ((flatten-IsFair wet).at s)
