-- ===== src/Memory/Client.antt =====
-- The MCP client of scripts/mempalace_migrate_wing.py: `_rpc` and `tool_call`.
use infra_lab.Base.{
  ℕ, zero, suc, ◌+◌, ◌-◌, ◌*◌, ◌≤◌, ◌≡◌, refl, String, Bool, true, false, ◌||◌, Option, none, some,
  List, ◌∷◌, arith, if◌then◌else◌, count_if, PyError, Result, ok, err, http, runtime, other,
  key_error, index_error, type_error, str_eq,
}
use infra_lab.Base.Stateful.{pure, raise, lift, attempt, ◌>>=◌, ◌>>◌, bind-ends}
use infra_lab.Base.Effects.{Calls, ask}
use infra_lab.Base.Text.{◌<>◌, show_ℕ}
use infra_lab.Base.Json.{Json, Fields, end, field, str, arr, obj, none_left, item, member}

-- A server is its address and its token; a request is a method with its parameters.
pub record Server : Type 0 where
  pub url : String
  pub token : String

pub data Call : Type 0 where
  post : Server → String → Json ℕ → Call
  sleep : ℕ → Call

-- The reply to a POST is its parsed body, or the error of the request or of the parser. An error that
-- is no HTTPError is told apart by its class.
pub record Network : Type 0 where
  pub post : List Call → Server → String → Json ℕ → Result (Json ℕ)
  pub loads : String → Result (Json ℕ)
  pub show_json : Json ℕ → String
  pub show_error : PyError → String

abbrev pub max_retries : ℕ
max_retries = 3

-- The errors of the `except` clause: URLError with its HTTPError, TimeoutError, RuntimeError.
unfoldable pub is_retried : PyError → Bool
is_retried (http status body) = true
is_retried (runtime message) = true
is_retried (other name) = str_eq name "URLError" || str_eq name "TimeoutError"
is_retried e = false

abbrev pub object_of : Json ℕ → Result (Fields ℕ)
object_of (obj d) = ok d
object_of v = err type_error

abbrev pub at_key : String → Fields ℕ → Result (Json ℕ)
at_key key d = elim (member key d) [ none ↦ err key_error | some v ↦ ok v ]

-- `value[0]`
abbrev first_of : Json ℕ → Result (Json ℕ)
first_of (arr none_left) = err index_error
first_of (arr (item v vs)) = ok v
first_of v = err type_error

abbrev pub text_of : Json ℕ → Result String
text_of (str s) = ok s
text_of v = err type_error

module _ (w : Network) where
  -- One attempt: the body of the reply, without an error and with a result.
  unfoldable pub one_attempt : Server → String → Json ℕ → Calls Call (Json ℕ)
  one_attempt server method params = do
    parsed ← ask (post server method params) (λ h. w.post h server method params)
    body ← lift (object_of parsed)
    elim (member "error" body) [
      | some e ↦ raise (runtime ("MCP error: " <> w.show_json e))
      | none ↦ lift (at_key "result" body)
    ]

  -- What follows the last attempt, and one after which `left` more come, of which `again` is the next.
  unfoldable pub after_last : Result (Json ℕ) → Calls Call (Json ℕ)
  after_last (ok result) = pure result
  after_last (err e) =
      if is_retried e
      then raise (
          runtime ("giving up after " <> (show_ℕ max_retries <> (" attempts: " <> w.show_error e))))
      else raise e

  unfoldable pub after_attempt : ℕ → Calls Call (Json ℕ) → Result (Json ℕ) → Calls Call (Json ℕ)
  after_attempt left again (ok result) = pure result
  after_attempt left again (err e) =
      if is_retried e
      then (do ask (sleep (2 * (max_retries - left))) (λ h. ok tt); again)
      else raise e

  -- One attempt and `left` more.
  unfoldable pub attempts : ℕ → Server → String → Json ℕ → Calls Call (Json ℕ)
  attempts zero server method params = attempt (one_attempt server method params) >>= after_last
  attempts (suc left) server method params =
      attempt (one_attempt server method params)
      >>= after_attempt (suc left) (attempts left server method params)

  unfoldable pub rpc : Server → String → Json ℕ → Calls Call (Json ℕ)
  rpc server method params = attempts 2 server method params

  -- The JSON in the first text of a result.
  unfoldable pub load_text : Json ℕ → Calls Call (Json ℕ)
  load_text result = do
    body ← lift (object_of result)
    content ← lift (at_key "content" body)
    first ← lift (first_of content)
    block ← lift (object_of first)
    value ← lift (at_key "text" block)
    text ← lift (text_of value)
    lift (w.loads text)

  unfoldable pub tool_call : Server → String → Json ℕ → Calls Call (Json ℕ)
  unfolding load_text
  tool_call server name arguments =
      rpc server "tools/call" (obj (field "name" (str name) (field "arguments" arguments end)))
      >>= load_text

abbrev pub is_post : Call → Bool
is_post (post server method params) = true
is_post (sleep seconds) = false

module _ {A : Type 0} where
  -- `m` posts at most `n` times, whether it returns or raises.
  pub record Posts (n : ℕ) (m : Calls Call A) : Type 0 where
    pub at : (made : List Call) → count_if is_post (m made).1 ≤ count_if is_post made + n

  Posts-none : (m : Calls Call A) → ((made : List Call) → (m made).1 ≡ made) → Posts 0 m
  Posts-none m h = record { at = λ made. rw (h made) (omega arith) }

  Posts-if :
      {n : ℕ} (b : Bool) (m k : Calls Call A) → Posts n m → Posts n k → Posts n (if b then m else k)
  Posts-if true m k q r = q
  Posts-if false m k q r = r

  Posts-more : {n : ℕ} (i : ℕ) (m : Calls Call A) → Posts n m → n ≤ i → Posts i m
  Posts-more i m q h = record { at = λ made. omega (arith, q.at made) }

module _ {A B : Type 0} where
  Posts-bind :
      {i j : ℕ} (m : Calls Call A) (f : A → Calls Call B)
      → Posts i m
      → ((a : A) → Posts j (f a))
      → Posts (i + j) (m >>= f)
  Posts-bind {i} {j} m f q r = record {
    at = λ made.
        bind-ends (λ x. count_if is_post x.1 ≤ count_if is_post made + (i + j)) m f made
          (λ e raised. omega (arith, q.at made))
          (λ a returned. omega (arith, q.at made, (r a).at (m made).1));
  }

Posts-attempt : {A : Type 0} {n : ℕ} (m : Calls Call A) → Posts n m → Posts n (attempt m)
Posts-attempt m q = record { at = λ made. q.at made }

module _ (w : Network) where
  one_attempt-Posts :
      (server : Server) (method : String) (params : Json ℕ)
      → Posts 1 (one_attempt w server method params)
  unfolding one_attempt
  one_attempt-Posts server method params =
      Posts-bind {i = 1} {j = 0}
        (ask (post server method params) (λ h. w.post h server method params)) _
        (record { at = λ made. omega arith })
        (λ parsed.
          Posts-bind {i = 0} {j = 0} (lift (object_of parsed)) _ (Posts-none _ (λ made. refl))
            (λ body. checked (member "error" body) body))
    where
      checked :
          (found : Option (Json ℕ)) (body : Fields ℕ)
          → Posts {A = Json ℕ} 0 (elim found [
            | some e ↦ raise (runtime ("MCP error: " <> w.show_json e))
            | none ↦ lift (at_key "result" body)
          ])
      checked none body = Posts-none _ (λ made. refl)
      checked (some e) body = Posts-none _ (λ made. refl)

  after_last-Posts : (r : Result (Json ℕ)) → Posts 0 (after_last w r)
  unfolding after_last
  after_last-Posts (ok result) = Posts-none _ (λ made. refl)
  after_last-Posts (err e) =
      Posts-if (is_retried e) _ _ (Posts-none _ (λ made. refl)) (Posts-none _ (λ made. refl))

  after_attempt-Posts :
      (n left : ℕ) (again : Calls Call (Json ℕ)) (r : Result (Json ℕ))
      → Posts n again
      → Posts n (after_attempt w left again r)
  unfolding after_attempt
  after_attempt-Posts n left again (ok result) q =
      Posts-more n _ (Posts-none (pure result) (λ made. refl)) (omega arith)
  after_attempt-Posts n left again (err e) q =
      Posts-if (is_retried e) _ _
        (record { at = λ made. omega (arith, q.at (sleep (2 * (max_retries - left)) ∷ made)) })
        (Posts-more n _ (Posts-none (raise e) (λ made. refl)) (omega arith))

  attempts-Posts :
      (left : ℕ) (server : Server) (method : String) (params : Json ℕ)
      → Posts (1 + left) (attempts w left server method params)
  unfolding attempts
  attempts-Posts zero server method params =
      Posts-bind _ _ (Posts-attempt _ (one_attempt-Posts server method params)) after_last-Posts
  attempts-Posts (suc left) server method params =
      Posts-bind {i = 1} {j = suc left} _ _
        (Posts-attempt _ (one_attempt-Posts server method params))
        (λ r.
          after_attempt-Posts (suc left) (suc left) _ r
            (Posts-more (suc left) _ (attempts-Posts left server method params) (omega arith)))

  -- A call of the server posts at most three times, whether it returns or raises.
  pub rpc-Posts :
      (server : Server) (method : String) (params : Json ℕ) → Posts 3 (rpc w server method params)
  unfolding rpc
  rpc-Posts server method params =
      Posts-more 3 _ (attempts-Posts 2 server method params) (omega arith)
