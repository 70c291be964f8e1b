-- ===== src/Trader/Request.antt =====
-- The retries of `AlpacaClient._request` in alpaca_api.py. The body of a reply is parsed by the caller
-- of the network.
use infra_lab.Base.{
  true, false, Bool, ◌≤◌, ◌≡◌, ◌∷◌, refl, arith, count_if, ℕ, zero, suc, ◌+◌, ◌*◌, ◌==◌, String,
  ◌||◌, if◌then◌else◌, List, ok, http, PyError,
}
use infra_lab.Base.Stateful.{pure, raise, ◌>>=◌, ◌>>◌}
use infra_lab.Base.Effects.{Calls, ask}
use infra_lab.Base.Json.{Json}

-- What one request of the network ends in: a body, an HTTPError, a URLError, or an exception that
-- `_request` does not catch, such as a timeout of the read or a body that is no JSON.
pub data Outcome (F : Type 0) : Type 0 where
  body : Json F → Outcome F
  http_error : ℕ → String → Outcome F
  url_error : String → Outcome F
  uncaught : PyError → Outcome F

-- A request, or a sleep of so many tenths of a second.
pub data Call : Type 0 where
  request : Call
  sleep_tenths : ℕ → Call

-- The statuses that are tried again.
unfoldable pub is_transient : ℕ → Bool
is_transient code = code == 429 || code == 500 || code == 502 || code == 503 || code == 504

module _ {F : Type 0} (network : List Call → Outcome F) where
  -- What follows the last attempt.
  unfoldable pub after_last : Outcome F → Calls Call (Json F)
  after_last (body v) = pure v
  after_last (http_error code detail) = raise (http code detail)
  after_last (url_error detail) = raise (http 0 detail)
  after_last (uncaught e) = raise e

  -- What follows an earlier attempt: `tried` came before it, and `again` is the next one.
  unfoldable pub after_attempt : ℕ → Calls Call (Json F) → Outcome F → Calls Call (Json F)
  after_attempt tried again (body v) = pure v
  after_attempt tried again (http_error code detail) =
      if is_transient code
      then (do ask (sleep_tenths (15 * (tried + 1))) (λ h. ok tt); again)
      else raise (http code detail)
  after_attempt tried again (uncaught e) = raise e
  after_attempt tried again (url_error detail) = do
    ask (sleep_tenths (15 * (tried + 1))) (λ h. ok tt)
    again

  -- One attempt and `retries` more, after `tried`.
  unfoldable pub attempt_request : ℕ → ℕ → Calls Call (Json F)
  attempt_request zero tried = ask request (λ h. ok (network h)) >>= after_last
  attempt_request (suc retries) tried =
      ask request (λ h. ok (network h))
      >>= after_attempt tried (attempt_request retries (suc tried))

  abbrev pub is_request : Call → Bool
  is_request request = true
  is_request (sleep_tenths n) = false

  after_last-count :
      (made : List Call) (o : Outcome F)
      → count_if is_request (after_last o made).1 ≡ count_if is_request made
  unfolding after_last
  after_last-count made (body v) = refl
  after_last-count made (http_error code detail) = refl
  after_last-count made (url_error detail) = refl
  after_last-count made (uncaught e) = refl

  after_attempt-count :
      (n tried : ℕ) (again : Calls Call (Json F)) (made : List Call) (o : Outcome F)
      → ((before : List Call)
          → count_if is_request (again before).1 ≤ count_if is_request before + n)
      → count_if is_request (after_attempt tried again o made).1 ≤ count_if is_request made + n
  unfolding after_attempt
  after_attempt-count n tried again made (body v) h = omega arith
  after_attempt-count n tried again made (uncaught e) h = omega arith
  after_attempt-count n tried again made (url_error detail) h =
      omega (arith, h (sleep_tenths (15 * (tried + 1)) ∷ made))
  after_attempt-count n tried again made (http_error code detail) h =
      elim (is_transient code)
        as (λ b.
          count_if is_request
            ((if b
                then (ask (sleep_tenths (15 * (tried + 1))) (λ h. ok tt) >> again)
                else raise (http code detail))
              made).1
          ≤ count_if is_request made + n) [
            | true ↦ omega (arith, h (sleep_tenths (15 * (tried + 1)) ∷ made))
            | false ↦ omega arith
          ]

  -- A call of the Alpaca API with `retries` makes at most one request more than that, whatever the
  -- network answers; without retries, as for the submission of an order, it makes at most one.
  pub attempt_request-count :
      (retries tried : ℕ) (made : List Call)
      → count_if is_request (attempt_request retries tried made).1
        ≤ count_if is_request made + (retries + 1)
  unfolding attempt_request
  attempt_request-count zero tried made =
      omega (arith, after_last-count (request ∷ made) (network made))
  attempt_request-count (suc retries) tried made = omega (
    arith,
    after_attempt-count (retries + 1) tried (attempt_request retries (suc tried)) (request ∷ made)
        (network made) (attempt_request-count retries (suc tried)),
  )
