-- ===== src/Desktop/Handler.antt =====
-- `handler` of desktop_provisioner.py. Texts are taken as ASCII where the case or the class of a
-- character counts.
pub mod Safety
use infra_lab.Base.{
  ℕ, zero, suc, String, Bool, true, false, not, ◌&&◌, ◌||◌, Option, none, some, List, [], ◌∷◌,
  if◌then◌else◌, all, lookup, PyError, Result, ok, err, client, attribute_error, key_error, str_eq,
  leb, length,
}
use infra_lab.Base.Stateful.{pure, raise, lift, attempt, ◌>>=◌, ◌>>◌}
use infra_lab.Base.Effects.{Calls, ask}
use infra_lab.Base.Text.{
  ◌<>◌, codes, split, strip, lower, show_ℕ, is_blank, is_lower, is_upper, is_digit,
}
use infra_lab.Base.Json.{Json, Fields, end, field, null, num, str, obj, member}
use infra_lab.Desktop.Cloud.{
  Cloud, Call, get_item, put_item, update_item, delete_item, start_instances,
}
use infra_lab.Desktop.Steps.{
  Info, Reply, text_or_null, is_truthy, build_endpoints, user_key, seconds, store_claude_api_key,
  check_rate_limit, record_rate_limit, update_security_group, get_instance_state, wait_for_ip,
  launch_new_instance,
}

-- The request of API Gateway, as far as it is read. The query is None where the URL has none.
pub record Event : Type 0 where
  pub headers : List (String × String)
  pub identity_ip : Option String
  pub http_method : Option String
  pub body : Option String
  pub query : Option (List (String × String))

-- `a or b` for what `get` returned
abbrev pub or_else : Option String → String → String
or_else none default = default
or_else (some s) default = if is_blank s then default else s

abbrev pub or_default : String → Option String → String
or_default default none = default
or_default default (some s) = s

-- `text.isalnum()`
is_word_char : ℕ → Bool
is_word_char c = is_lower c || is_upper c || is_digit c

pub is_alnum : String → Bool
unfolding is_word_char
is_alnum text = all is_word_char (codes text) && leb 1 (length (codes text))

-- `text.split(",")[0]`
abbrev first_piece : List String → String
first_piece [] = ""
first_piece (p ∷ ps) = p

unfoldable pub api_key_of : Event → String
api_key_of event =
    or_else (lookup "x-api-key" event.headers) (or_else (lookup "X-API-Key" event.headers) "")

unfoldable pub source_ip_of : Event → String
unfolding split strip
source_ip_of event =
    if is_truthy event.identity_ip
    then or_default "" event.identity_ip
    else strip
        (first_piece (split b',' (or_default "unknown" (lookup "X-Forwarded-For" event.headers))))

-- `body.get(key, "").strip()`, which needs a text.
abbrev stripped : Option (Json ℕ) → Result String
stripped none = ok ""
stripped (some (str s)) = ok (strip s)
stripped (some v) = err attribute_error

abbrev pub object_of : Json ℕ → Result (Fields ℕ)
object_of (obj d) = ok d
object_of v = err attribute_error

-- The text under a key that must be there; the program stores texts only.
abbrev text_at : String → Fields ℕ → Result String
text_at key item = elim (member key item) [
  | none ↦ err key_error
  | some v ↦ elim v [ str s ↦ ok s | _ ↦ err attribute_error ]
]

reply : ℕ → Fields ℕ → Reply
reply status body = record { status = status; body = body }

abbrev failed : ℕ → String → Reply
failed status message = reply status (field "error" (str message) end)

credentials : String → Json ℕ
credentials password = obj (
    field "dcv_user" (str "dcvuser")
      (field "dcv_password" (str password) (field "code_server_password" (str "magnet123") end)))

-- The answer for an instance whose address is known.
desktop_reply : ℕ → String → String → String → Option String → String → Fields ℕ → Reply
unfolding credentials reply
desktop_reply status state username instance_id public_ip password rest = reply status (
    field "status" (str state) (
      field "username" (str username) (
        field "instance_id" (str instance_id) (
          field "public_ip" (text_or_null public_ip) (
            field "endpoints" (build_endpoints public_ip)
              (field "credentials" (credentials password) rest))))))

waiting_reply : String → String → String → Reply
unfolding reply
waiting_reply state instance_id note = reply 202 (
    field "status" (str state)
      (field "instance_id" (str instance_id) (field "note" (str note) end)))

module _ (w : Cloud) (rate_limit : ℕ) where
  -- The desktop of a user: nothing stored yet, or to be launched again.
  unfoldable pub provision : String → String → Calls Call Reply
  unfolding desktop_reply waiting_reply
  provision username source_ip = do
    launched ← launch_new_instance w rate_limit username
    update_security_group w rate_limit source_ip
    public_ip ← wait_for_ip w rate_limit launched.0
    created ← seconds w rate_limit
    started ← seconds w rate_limit
    let item : Fields ℕ = field "username" (str username) (
        field "instance_id" (str launched.0) (
          field "volume_id" (str launched.1) (
            field "public_ip" (str (or_else public_ip "pending")) (
              field "created_at" (num created)
                (field "last_started" (num started) (field "source_ip" (str source_ip) end))))))
    ask (put_item (user_key username) item) (λ h. w.put_item h (user_key username) item)
    if is_truthy public_ip
        then pure (
            desktop_reply 201 "provisioning" username launched.0 public_ip "ChangeMeOnFirstLogin!"
              (field "note" (str "New desktop provisioning — fully ready in ~10 minutes") end))
        else pure (
            waiting_reply "provisioning" launched.0
              "Desktop launching. Poll GET /desktops for status.")

  unfoldable pub resume : String → String → String → Calls Call Reply
  unfolding desktop_reply waiting_reply
  resume username source_ip instance_id = do
    ask (start_instances instance_id) (λ h. w.start_instances h instance_id)
    update_security_group w rate_limit source_ip
    public_ip ← wait_for_ip w rate_limit instance_id
    if is_truthy public_ip
        then (do
          started ← seconds w rate_limit
          ask (update_item (user_key username) (or_default "" public_ip) started)
              (λ h. w.update_item h (user_key username) (or_default "" public_ip) started)
          pure (
              desktop_reply 200 "starting" username instance_id public_ip "(set by user)"
                (field "note" (str "Instance starting — DCV available in ~2 minutes") end)))
        else pure
            (waiting_reply "starting" instance_id "Instance starting. Poll GET /desktops for IP.")

  -- What a POST does for a user with a record, by the state of the recorded instance.
  unfoldable pub by_state : String → String → String → Option Info → Calls Call Reply
  unfolding desktop_reply waiting_reply
  by_state username source_ip instance_id none = do
    ask (delete_item (user_key username)) (λ h. w.delete_item h (user_key username))
    provision username source_ip
  by_state username source_ip instance_id (some info) =
      if str_eq info.state "running"
      then (do
        update_security_group w rate_limit source_ip
        pure (desktop_reply 200 "running" username instance_id info.public_ip "(set by user)" end))
      else if str_eq info.state "stopped"
      then resume username source_ip instance_id
      else if str_eq info.state "stopping" || str_eq info.state "pending"
      then pure (
          waiting_reply info.state instance_id
            "Instance is transitioning. Try again in 30 seconds.")
      else provision username source_ip

  unfoldable pub by_record : String → String → Option (Fields ℕ) → Calls Call Reply
  by_record username source_ip none = provision username source_ip
  by_record username source_ip (some item) = do
    instance_id ← lift (text_at "instance_id" item)
    info ← get_instance_state w rate_limit instance_id
    by_state username source_ip instance_id info

  -- The `except` clause of a POST: a ClientError counts as no record.
  unfoldable pub or_no_record : Result (Option (Fields ℕ)) → Calls Call (Option (Fields ℕ))
  or_no_record (ok found) = pure found
  or_no_record (err (client code)) = pure none
  or_no_record (err e) = raise e

  -- A POST that the rate limit lets through.
  unfoldable pub accepted : String → String → Calls Call Reply
  accepted source_ip username = do
    record_rate_limit w rate_limit source_ip
    outcome ← attempt (ask (get_item (user_key username)) (λ h. w.get_item h (user_key username)))
    found ← or_no_record outcome
    by_record username source_ip found

  -- What follows the check of the rate limit.
  unfoldable pub after_check : String → String → Bool → Calls Call Reply
  unfolding reply
  after_check source_ip username false =
      pure (failed 429 ("Rate limited. Try again in " <> (show_ℕ rate_limit <> " seconds.")))
  after_check source_ip username true = accepted source_ip username

  unfoldable pub post : Fields ℕ → String → String → Calls Call Reply
  unfolding reply is_alnum
  post body source_ip username =
      if is_blank username || not (is_alnum username)
      then pure (failed 400 "username required (alphanumeric only)")
      else do
        claude_api_key ← lift (stripped (member "claude_api_key" body))
        store_claude_api_key w rate_limit username claude_api_key
        free ← check_rate_limit w rate_limit source_ip
        after_check source_ip username free

  unfoldable pub status_reply : String → String → Option Info → Reply
  unfolding reply
  status_reply username instance_id none = failed 404 "Instance no longer exists"
  status_reply username instance_id (some info) =
      let known : Fields ℕ → Fields ℕ = λ rest. field "status" (str info.state) (
        field "username" (str username) (
          field "instance_id" (str instance_id)
            (field "public_ip" (text_or_null info.public_ip) rest))) in
      if is_truthy info.public_ip && str_eq info.state "running"
      then reply 200 (
          known (
            field "endpoints" (build_endpoints info.public_ip) (
              field "credentials"
                (obj (
                  field "dcv_user" (str "dcvuser")
                    (field "code_server_password" (str "magnet123") end)))
                end)))
      else reply 200 (known end)

  unfoldable pub after_find : String → Result (Option (Fields ℕ)) → Calls Call Reply
  unfolding status_reply reply
  after_find username (err (client code)) = pure (failed 500 "Database error")
  after_find username (err e) = raise e
  after_find username (ok none) = pure (failed 404 ("No desktop found for " <> username))
  after_find username (ok (some item)) = do
    instance_id ← lift (text_at "instance_id" item)
    info ← get_instance_state w rate_limit instance_id
    pure (status_reply username instance_id info)

  -- What a GET does with the query, which is None where the URL has none.
  unfoldable pub get : Option (List (String × String)) → Calls Call Reply
  unfolding after_find reply
  get none = raise attribute_error
  get (some query) =
      let username = or_default "" (lookup "username" query) in
      if is_blank username then pure (failed 400 "username query param required") else do
        outcome ←
            attempt (ask (get_item (user_key username)) (λ h. w.get_item h (user_key username)))
        after_find username outcome

  unfoldable pub dispatch : Event → Fields ℕ → String → Calls Call Reply
  unfolding source_ip_of reply lower
  dispatch event body name =
      let method = or_default "GET" event.http_method in
      if str_eq method "POST"
      then post body (source_ip_of event) (lower name)
      else if str_eq method "GET"
      then get event.query
      else pure (failed 405 "Method not allowed")

  unfoldable pub handler : String → Event → Calls Call Reply
  unfolding api_key_of reply strip
  handler api_secret event =
      if not (str_eq (api_key_of event) api_secret) then pure (failed 401 "Unauthorized") else do
        parsed ← lift (w.loads (or_else event.body "{}"))
        body ← lift (object_of parsed)
        name ← lift (stripped (member "username" body))
        dispatch event body name
