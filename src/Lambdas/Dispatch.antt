-- ===== src/Lambdas/Dispatch.antt =====
-- infra/live/dev/lambda/wake/handler.py and idle_teardown_trigger/handler.py: both start a workflow
-- of the repository. Tokens are taken as ASCII, where `hmac.compare_digest` is equality.
use infra_lab.Base.{
  ℕ, zero, suc, String, ◌≡◌, Bool, true, false, not, Option, none, some, List, ◌==◌, if◌then◌else◌,
  lookup, Result, ok, err, http, str_eq,
}
use infra_lab.Base.Stateful.{pure, raise, attempt, ◌>>=◌}
use infra_lab.Base.Effects.{Calls, ask, Spares, spare_rules, Spares-known}
use infra_lab.Base.Text.{lower, strip, has_prefix, is_blank}

pub data Call : Type 0 where
  get_secret : String → Call
  -- the repository, the workflow file, the `action` input where there is one, and the credential
  dispatch : String → String → Option String → String → Call

-- Secrets Manager, and the POST to the GitHub API: its status, or an HTTPError.
pub record Services : Type 0 where
  pub get_secret : List Call → String → Result String
  pub dispatch : List Call → String → String → Option String → String → Result ℕ

-- The environment variables of the two functions.
pub record Settings : Type 0 where
  pub github_repo : String
  pub workflow_file : String
  pub wake_token_arn : String
  pub github_pat_arn : String

-- The answers of the wake function. A failed dispatch has the status and the body of the API.
pub data Answer : Type 0 where
  missing_token invalid_token requested : Answer
  dispatch_failed : ℕ → String → Answer

-- `text[count:]`
pub drop_text : ℕ → String → String
drop_text zero text = text
drop_text (suc n) String.[] = String.[]
drop_text (suc n) (String.◌∷◌ c text) = drop_text n text

abbrev or_else : Option String → String → String
or_else none default = default
or_else (some s) default = if is_blank s then default else s

-- `_extract_bearer_token`
unfoldable pub extract_bearer_token : List (String × String) → String
unfolding lower strip has_prefix drop_text
extract_bearer_token headers =
    let auth =
      or_else (lookup "authorization" headers) (or_else (lookup "Authorization" headers) "") in
    if has_prefix (lower auth) "bearer " then strip (drop_text 7 auth) else ""

module _ (w : Services) (settings : Settings) where
  -- `_get_secret`
  unfoldable pub secret : String → Calls Call String
  unfolding strip
  secret arn = do found ← ask (get_secret arn) (λ h. w.get_secret h arn); pure (strip found)

  -- The POST: with the action `up` for the wake function, and without inputs for the teardown.
  unfoldable pub post : Option String → Calls Call ℕ
  post action = do
    pat ← secret settings.github_pat_arn
    ask (dispatch settings.github_repo settings.workflow_file action pat)
        (λ h. w.dispatch h settings.github_repo settings.workflow_file action pat)

  pub or_status : Result ℕ → Calls Call (ℕ × String)
  or_status (ok status) = pure (status, "")
  or_status (err (http status body)) = pure (status, body)
  or_status (err e) = raise e

  -- `_trigger_workflow_dispatch`. Only the request is in its `try`, not the read of the credential.
  unfoldable pub trigger_workflow_dispatch : Calls Call (ℕ × String)
  unfolding or_status
  trigger_workflow_dispatch = do
    pat ← secret settings.github_pat_arn
    outcome ← attempt (
        ask (dispatch settings.github_repo settings.workflow_file (some "up") pat)
          (λ h. w.dispatch h settings.github_repo settings.workflow_file (some "up") pat))
    or_status outcome

  -- What follows the read of the expected token.
  unfoldable pub after_expected : String → String → Calls Call Answer
  after_expected provided expected =
      if not (str_eq provided expected) then pure invalid_token else do
        answered ← trigger_workflow_dispatch
        pure (if answered.0 == 204 then requested else dispatch_failed answered.0 answered.1)

  -- `handler` of the wake function, for the headers of the event.
  unfoldable pub wake : List (String × String) → Calls Call Answer
  wake headers =
      let provided = extract_bearer_token headers in
      if is_blank provided
      then pure missing_token
      else do expected ← secret settings.wake_token_arn; after_expected provided expected

  -- `handler` of the teardown trigger: an HTTPError is raised again.
  unfoldable pub teardown : Calls Call ℕ
  unfolding post
  teardown = post none

  abbrev pub is_dispatch : Call → Bool
  is_dispatch (dispatch repo file action pat) = true
  is_dispatch call = false

  secret-Spares : (arn : String) → Spares is_dispatch (secret arn)
  unfolding secret
  secret-Spares arn = search spare_rules

  after_expected-Spares :
      (provided expected : String)
      → str_eq provided expected ≡ false
      → Spares is_dispatch (after_expected provided expected)
  unfolding after_expected
  after_expected-Spares provided expected differ = rw differ (search spare_rules)

  -- Where the stored token is read as `stored`, whatever was called before, and the bearer token of the
  -- request differs from it, the wake function starts no workflow.
  pub wake-Spares :
      (headers : List (String × String)) (stored : String)
      → ((made : List Call) → (secret settings.wake_token_arn made).0 ≡ ok stored)
      → str_eq (extract_bearer_token headers) stored ≡ false
      → Spares is_dispatch (wake headers)
  unfolding wake
  wake-Spares headers stored known differ =
      search (Spares-known, spare_rules, secret-Spares, after_expected-Spares) depth 8
