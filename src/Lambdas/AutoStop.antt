-- ===== src/Lambdas/AutoStop.antt =====
-- infra/live/dev/lambda/rds_auto_stop.py.
use infra_lab.Base.{
  String, ◌≡◌, refl, Bool, true, false, not, ◌&&◌, List, ◌∷◌, if◌then◌else◌, keep_if, Result, ok,
  err, client, str_eq, PyError,
}
use infra_lab.Base.Stateful.{pure, raise, attempt, ◌>>=◌}
use infra_lab.Base.Effects.{Calls, ask}
use infra_lab.Base.Text.{lower, has_text}

pub data Call : Type 0 where
  get_parameter stop_cluster : String → Call

-- SSM and RDS. The errors of RDS are told apart by their code.
pub record Aws : Type 0 where
  pub get_parameter : List Call → String → Result String
  pub stop_cluster : List Call → String → Result (Unit {0})

-- The `detail` of the event, where a missing member is empty.
pub record Event : Type 0 where
  pub source_identifier : String
  pub message : String

pub data Action : Type 0 where
  not_start disabled stopped not_stoppable : Action

abbrev pub ssm_parameter : String
ssm_parameter = "/infra-lab/rds-auto-stop/enabled"

-- `enabled`, by the outcome of the read: any error counts as enabled.
unfoldable pub is_enabled : Result String → Bool
unfolding lower
is_enabled (ok value) = str_eq (lower value) "true"
is_enabled (err e) = true

unfoldable pub is_start : Event → Bool
unfolding lower has_text
is_start event = has_text (lower event.message) "started"

-- What follows the call that stops the cluster.
pub after_stop : Result (Unit {0}) → Calls Call Action
after_stop (ok _) = pure stopped
after_stop (err (client code)) =
    if str_eq code "InvalidDBClusterStateFault" then pure not_stoppable else raise (client code)
after_stop (err e) = raise e

module _ (w : Aws) where
  unfoldable pub handler : Event → Calls Call Action
  unfolding after_stop
  handler event = if not (is_start event) then pure not_start else do
    read ← attempt (ask (get_parameter ssm_parameter) (λ h. w.get_parameter h ssm_parameter))
    if not (is_enabled read) then pure disabled else do
      outcome ← attempt (
          ask (stop_cluster event.source_identifier)
            (λ h. w.stop_cluster h event.source_identifier))
      after_stop outcome

  abbrev pub is_stop : Call → Bool
  is_stop (stop_cluster id) = true
  is_stop call = false

  if_made :
      (b : Bool) (m n : Calls Call Action) (made : List Call)
      → (m made).1 ≡ made
      → (n made).1 ≡ made
      → ((if b then m else n) made).1 ≡ made
  if_made true m n made h k = h
  if_made false m n made h k = k

  after_stop-made : (r : Result (Unit {0})) (made : List Call) → (after_stop r made).1 ≡ made
  unfolding after_stop
  after_stop-made (ok _) made = refl
  after_stop-made (err (client code)) made =
      if_made (str_eq code "InvalidDBClusterStateFault") (pure not_stoppable) (raise (client code))
        made refl refl
  after_stop-made (err _) made = refl

  -- What the outcome of the read says about the switch: an error of any kind counts as on.
  pub data Says : Result String → Bool → Type 0 where
    unreadable : (e : PyError) → Says (err e) true
    readable : (value : String) → Says (ok value) (str_eq (lower value) "true")

  said : (r : Result String) (on : Bool) → Says r on → is_enabled r ≡ on
  unfolding is_enabled
  said r on (unreadable e) = refl
  said r on (readable value) = refl

  -- For every event, and whatever the read of the switch ends in: the cluster of the event is told to
  -- stop, once, if the message, in lower case, has "started" in it and the switch is on; otherwise no
  -- cluster is. The switch is on if the read raised, of whatever kind the error is, or gave "true" in
  -- upper or lower case. Whether the stop succeeds or not does not matter.
  pub handler-stop :
      (event : Event) (made : List Call) (on : Bool)
      → Says (w.get_parameter made ssm_parameter) on
      → keep_if is_stop (handler event made).1 ≡ (
          if has_text (lower event.message) "started" && on
          then stop_cluster event.source_identifier ∷ keep_if is_stop made
          else keep_if is_stop made)
  unfolding handler is_start
  handler-stop event made on says =
      go (has_text (lower event.message) "started") on refl (said _ on says)
    where
      go :
          (start enabled : Bool)
          → has_text (lower event.message) "started" ≡ start
          → is_enabled (w.get_parameter made ssm_parameter) ≡ enabled
          → keep_if is_stop (handler event made).1 ≡ (
              if start && enabled
              then stop_cluster event.source_identifier ∷ keep_if is_stop made
              else keep_if is_stop made)
      go false enabled e d = rw e refl
      go true false e d = rw (e, d) refl
      go true true e d = rw (e, d, after_stop-made) refl
