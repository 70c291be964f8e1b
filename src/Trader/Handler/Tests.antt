-- ===== src/Trader/Handler/Tests.antt =====
-- Examples for a whole wakeup of the trading runner.
use infra_lab.Base.{
  ◌≡◌, refl, sym, str_eq, true, false, some, [], ◌∷◌, if◌then◌else◌, keep_if, ok, err, value_error,
  lock_held, ok-injective,
}
use infra_lab.Base.Fixed.{Fixed, fixed_number}
use infra_lab.Base.Json.{Fields, end, field, bool, str, obj}
use infra_lab.Trader.Config.{int_value}
use infra_lab.Trader.Guardrails.{paper_check}
use infra_lab.Trader.World.{World, get_object, delete_object}
use infra_lab.Trader.Store.{lock_name, acquire_lock, holder_message}
use infra_lab.Trader.Tools.DryRun.{is_trade}
use infra_lab.Trader.Tests.{raw_config, limits, desk, locked, holder, fresh, live_context}
use infra_lab.Trader.Handler.{
  refused, guarded, locked_run, slot_of, run, run_event, after_run, is_startup, handler,
}
use infra_lab.Trader.Handler.DryRun.{handler-dry_run}
use infra_lab.Trader.Handler.Lock.{locked_run-held, locked_run-release}
use infra_lab.Trader.Handler.Errors.{IsExpected, handler_apart}
use infra_lab.Trader.Handler.Gates.{IsLive, IsClosed, handler-IsLive, handler-IsClosed}

-- A bucket with a valid config, on a paper account, where all else is one object.
abbrev office : World Fixed
office = record desk {
  get_object = λ h key. ok (some key);
  account = λ h. ok (field "account_number" (str "PA1") end);
  loads = λ text. ok (
      obj (
        if str_eq text "config/guardrails.json"
        then raw_config
        else field "key_id" (str "k") (field "secret_key" (str "s") end)));
}

abbrev dry_event : Fields Fixed
dry_event = field "slot" (str "5") (field "dry_run" (bool true) end)

handler-dry_run_example :
    keep_if is_trade (handler office (some (obj dry_event)) "run-1" fresh).1.history ≡ []
handler-dry_run_example = handler-dry_run office dry_event "run-1" fresh refl

abbrev wet_event : Fields Fixed
wet_event = field "slot" (str "2") end

desk-IsLive : IsLive desk
unfolding IsLive paper_check
desk-IsLive h acct answered = rw (← ok-injective _ acct answered) (_, refl)

handler-IsLive_example :
    keep_if is_trade (handler desk (some (obj wet_event)) "run-1" fresh).1.history ≡ []
handler-IsLive_example = handler-IsLive desk wet_event "run-1" fresh desk-IsLive

office-IsClosed : IsClosed office
unfolding IsClosed
office-IsClosed h day entries answered = sym (ok-injective [] entries answered)

handler-IsClosed_example :
    keep_if is_trade (handler office (some (obj wet_event)) "run-1" fresh).1.history ≡ []
handler-IsClosed_example = handler-IsClosed office wet_event "run-1" fresh office-IsClosed refl

-- A slot that is no number is a ValueError, which is let through.
bad_event :
    (handler desk (some (obj (field "slot" (str "x") end))) "run-1" fresh).0 ≡ err value_error
unfolding handler run_event run slot_of int_value after_run is_startup
bad_event = refl

handler_apart_example : ¬ IsExpected desk value_error
handler_apart_example =
    handler_apart desk (some (obj (field "slot" (str "x") end))) "run-1" fresh value_error bad_event

-- A bucket that takes the lock, and has one of the run "run-1" whenever it is read.
abbrev lending : World Fixed
lending = record desk {
  get_object = λ h key. ok (some "lock");
  loads = λ text. ok (obj (field "run_id" (str "run-1") end));
}

is_taken : (acquire_lock lending "" "run-1" 2 fresh).0 ≡ ok tt
unfolding acquire_lock
is_taken = refl

locked_run-release_example :
    (locked_run lending "" (live_context false) limits "10:00" "run-1" fresh).1.history
    ≡ delete_object lock_name
      ∷ get_object lock_name
      ∷ (guarded lending ""
          (live_context false)
          limits
          "10:00"
          "run-1"
          (acquire_lock lending "" "run-1" 2 fresh).1).1.history
locked_run-release_example =
    locked_run-release lending "" (live_context false) limits "10:00" "run-1" fresh "lock"
      (field "run_id" (str "run-1") end) is_taken refl refl

is_held :
    (acquire_lock locked "" "run-2" 2 fresh).0 ≡ err (lock_held (holder_message locked "" holder))
unfolding acquire_lock fixed_number
is_held = refl

locked_run-held_example :
    ((locked_run locked "" (live_context false) limits "10:00" "run-2" fresh).0
      ≡ ok (refused (holder_message locked "" holder)))
    × (keep_if is_trade
          (locked_run locked "" (live_context false) limits "10:00" "run-2" fresh).1.history
        ≡ [])
locked_run-held_example =
    locked_run-held locked "" (live_context false) limits "10:00" "run-2"
      (holder_message locked "" holder) fresh refl is_held
