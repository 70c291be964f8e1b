-- ===== src/Trader/Handler/Inputs.antt =====
-- What a wakeup of handler.py reads before it starts: the slot of the event, the credentials, and the
-- texts of its errors.
use infra_lab.Base.{
  String, Option, none, some, List, [], ◌∷◌, if◌then◌else◌, PyError, Result, ok, err, type_error,
  http, runtime, config, lock_held, Exec,
}
use infra_lab.Base.Int.{ℤ, pos}
use infra_lab.Base.Stateful.{pure, lift, ◌>>=◌}
use infra_lab.Base.Text.{◌<>◌, strip, is_blank}
use infra_lab.Base.Number.{Number}
use infra_lab.Base.Dynamic.{item_of}
use infra_lab.Base.Json.{Json, Fields, end, field, str, obj}
use infra_lab.Trader.Config.{int_value}
use infra_lab.Trader.World.{World, Run, send, get_secret}
use infra_lab.Trader.Strategy.{alpaca_secret_arn}
use infra_lab.Trader.Tools.{alpaca_message}

module _ {F : Type 0} ⦃number : Number F⦄ where
  -- `int(event.get("slot", 0))`
  unfoldable pub slot_of : Option (Json F) → Result ℤ
  slot_of none = ok (pos 0)
  slot_of (some v) = int_value v

  -- `json.loads(environ.get("ALPACA_SECRET_ARNS") or "{}")`, as pairs. An ARN that is no text is not
  -- told apart from one that is missing.
  pub pairs_of : Fields F → List (String × String)
  pairs_of end = []
  pairs_of (field k (str arn) rest) = (k, arn) ∷ pairs_of rest
  pairs_of (field k v rest) = pairs_of rest

  pub arns_of : Json F → Result (List (String × String))
  arns_of (obj d) = ok (pairs_of d)
  arns_of v = err type_error

abbrev or_braces : Option String → String
or_braces none = "{}"
or_braces (some text) = if is_blank text then "{}" else text

module _ {F : Type 0} ⦃number : Number F⦄ (w : World F) where
  -- `str(exc)`
  unfoldable pub message_of : PyError → String
  unfolding alpaca_message
  message_of (http status body) = alpaca_message status body
  message_of (runtime message) = message
  message_of (config message) = message
  message_of (lock_held message) = message
  message_of e = w.error_text e

  -- `f"{type(exc).__name__}: {exc}"`
  unfoldable pub describe : PyError → String
  unfolding message_of
  describe e = w.type_name e <> (": " <> message_of e)

  -- `_secret`
  unfoldable pub secret : String → Exec (Run F) String
  unfolding strip
  secret arn = do text ← send (get_secret arn) (λ h. w.get_secret h arn); pure (strip text)

  unfoldable pub arns : Result (List (String × String))
  unfolding arns_of
  arns = elim (w.loads (or_braces (w.environ "ALPACA_SECRET_ARNS"))) [
    | err e ↦ err e
    | ok v ↦ arns_of v
  ]

  -- The credentials: read and parsed, with both members there.
  unfoldable pub credentials : String → Exec (Run F) (Unit {0})
  unfolding secret arns item_of alpaca_secret_arn
  credentials strategy = do
    arn ← lift (alpaca_secret_arn strategy (w.environ "ALPACA_SECRET_ARN") arns)
    text ← secret arn
    keys ← lift (w.loads text)
    key_id ← lift (item_of "key_id" keys)
    secret_key ← lift (item_of "secret_key" keys)
    pure tt
