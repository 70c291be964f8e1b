-- ===== src/Trader/Handler/Errors.antt =====
-- The exceptions that `handler` of handler.py lets through.
use infra_lab.Base.{
  ℕ, http, key_error, runtime, String, ◌≡◌, refl, Bool, true, false, if◌then◌else◌, Option, PyError,
  Result, ok, err, err-injective, Exec,
}
use infra_lab.Base.Stateful.{pure, raise, attempt, ◌>>◌}
use infra_lab.Base.Number.{Number}
use infra_lab.Base.Json.{Json}
use infra_lab.Trader.World.{World, Run}
use infra_lab.Trader.Handler.{
  Answer, refused, message_of, is_startup, startup_alert, after_run, run_event, handler,
}

module _ {F : Type 0} ⦃number : Number F⦄ (w : World F) where
  raised_apart :
      (b : Bool) (e : PyError) (answer : Answer F) (alerting : Exec (Run F) Bool) (s : Run F)
      → is_startup w e ≡ b
      → (x : PyError) → ((if b then (attempt alerting >> pure answer) else raise e) s).0 ≡ err x
      → is_startup w x ≡ false
  raised_apart true e answer alerting s h x raised = cc
  raised_apart false e answer alerting s h x raised = rw (← err-injective e x raised) h

  after_run_apart :
      (event : Option (Json F)) (outcome : Result (Answer F)) (s : Run F) (x : PyError)
      → (after_run w event outcome s).0 ≡ err x
      → is_startup w x ≡ false
  unfolding after_run
  after_run_apart event (ok answer) s x raised = cc
  after_run_apart event (err e) s x raised =
      raised_apart (is_startup w e) e (refused (message_of w e)) (startup_alert w event e) s refl x
        raised

  -- An AlpacaError, a KeyError or a RuntimeError.
  pub data IsExpected : PyError → Type 0 where
    alpaca : (status : ℕ) (body : String) → IsExpected (http status body)
    missing : IsExpected key_error
    failed : (message : String) → IsExpected (runtime message)

  expected_startup : (e : PyError) → IsExpected e → is_startup w e ≡ true
  unfolding is_startup
  expected_startup e (alpaca status body) = refl
  expected_startup e missing = refl
  expected_startup e (failed message) = refl

  -- `handler` raises no AlpacaError, no KeyError and no RuntimeError, whatever the event and whatever
  -- fails, the alert included.
  pub handler_apart :
      (event : Option (Json F)) (run_id : String) (s : Run F) (e : PyError)
      → (handler w event run_id s).0 ≡ err e
      → ¬ IsExpected e
  unfolding handler
  handler_apart event run_id s e raised expected =
      let other : is_startup w e ≡ false =
        after_run_apart event (run_event w event run_id s).0 (run_event w event run_id s).1 e
          raised in
      let startup : is_startup w e ≡ true = expected_startup e expected in cc
