-- ===== src/Trader/Tools/Quiet.antt =====
-- Actions that add no call of a kind to the history: one rule for each way to build an action.
use infra_lab.Base.{
  ◌≡◌, refl, ap, ◌∙◌, Bool, true, false, List, if◌then◌else◌, keep_if, PyError, Result, ok, err,
  Exec,
}
use infra_lab.Base.Stateful.{pure, raise, lift, gets, modify, attempt, ◌>>=◌}
use infra_lab.Trader.World.{Call, Run, send}

-- `m` makes no call of which `p` holds, whether it returns or raises.
pub record Quiet {ℓ} {F : Type 0} {A : Type ℓ} (p : Call F → Bool) (m : Exec (Run F) A)
    : Type ℓ where
  pub at : (s : Run F) → keep_if p (m s).1.history ≡ keep_if p s.history

module _ {ℓ} {F : Type 0} {A : Type ℓ} {p : Call F → Bool} where
  pub Quiet-pure : (a : A) → Quiet p (pure {S = Run F} a)
  Quiet-pure a = record { at = λ s. refl }

  pub Quiet-raise : (e : PyError) → Quiet p (raise {S = Run F} {A = A} e)
  Quiet-raise e = record { at = λ s. refl }

  pub Quiet-lift : (r : Result A) → Quiet p (lift {S = Run F} r)
  Quiet-lift r = record { at = λ s. refl }

  pub Quiet-gets : (f : Run F → A) → Quiet p (gets f)
  Quiet-gets f = record { at = λ s. refl }

  pub Quiet-send :
      (call : Call F) (reply : List (Call F) → Result A)
      → p call ≡ false
      → Quiet p (send call reply)
  Quiet-send call reply h = record { at = λ s. rw h refl }

  pub Quiet-attempt : (m : Exec (Run F) A) → Quiet p m → Quiet p (attempt m)
  Quiet-attempt m q = record { at = λ s. q.at s }

  pub Quiet-if :
      (b : Bool) (m n : Exec (Run F) A) → Quiet p m → Quiet p n → Quiet p (if b then m else n)
  Quiet-if true m n q r = q
  Quiet-if false m n q r = r

module _ {ℓ κ} {F : Type 0} {A : Type ℓ} {B : Type κ} {p : Call F → Bool} where
  pub Quiet-bind :
      (m : Exec (Run F) A) (f : A → Exec (Run F) B)
      → Quiet p m
      → ((a : A) → Quiet p (f a))
      → Quiet p (m >>= f)
  Quiet-bind m f q r = record { at = λ s. go s (m s).0 (m s).1 (q.at s) }
    where
      go :
          (s : Run F) (x : Result A) (t : Run F)
          → keep_if p t.history ≡ keep_if p s.history
          → keep_if p
              (elim x as (λ _. Result B × Run F) [ ok a ↦ f a t | err e ↦ (err e, t) ]).1.history
            ≡ keep_if p s.history
      go s (ok a) t e = (r a).at t ∙ e
      go s (err x) t e = e

pub ruleset quiet_rules = (
  Quiet-pure, Quiet-raise, Quiet-lift, Quiet-gets, Quiet-send, Quiet-attempt, Quiet-if, Quiet-bind,
)

module _ {ℓ} {F : Type 0} {A : Type ℓ} {p : Call F → Bool} where
  -- Of a branch whose test is known, the branch that is taken.
  pub Quiet-if_true :
      (b : Bool) (m n : Exec (Run F) A) → b ≡ true → Quiet p m → Quiet p (if b then m else n)
  Quiet-if_true true m n h q = q
  Quiet-if_true false m n h q = cc

module _ {ℓ} {F : Type 0} {A : Type ℓ} {p : Call F → Bool} where
  pub Quiet-if_false :
      (b : Bool) (m n : Exec (Run F) A) → b ≡ false → Quiet p n → Quiet p (if b then m else n)
  Quiet-if_false true m n h q = cc
  Quiet-if_false false m n h q = q

pub Quiet-modify :
    {F : Type 0} {p : Call F → Bool} (f : Run F → Run F)
    → ((s : Run F) → (f s).history ≡ s.history)
    → Quiet p (modify f)
Quiet-modify {p} f h = record { at = λ s. ap (keep_if p) (h s) }
