-- ===== src/Desktop/Steps.antt =====
-- The helpers of desktop_provisioner.py: the API key, the rate limit, the security group and the
-- instances.
use infra_lab.Base.{
  ℕ, zero, suc, ◌+◌, ◌*◌, ◌/◌, String, Bool, true, false, not, Option, none, some, List, [], ◌∷◌,
  ◌++◌, map, ltb, if◌then◌else◌, PyError, Result, ok, err, client, index_error, key_error,
  type_error, str_eq, any,
}
use infra_lab.Base.Stateful.{pure, raise, lift, attempt, ◌>>=◌, ◌>>◌}
use infra_lab.Base.Effects.{Calls, ask}
use infra_lab.Base.Text.{◌<>◌, show_ℕ, is_blank}
use infra_lab.Base.Json.{Json, Fields, end, field, null, bool, num, str, obj, member}
use infra_lab.Desktop.Cloud.{
  Cloud, Call, Rule, Instance, create_parameter, overwrite_parameter, get_item, put_item,
  describe_group, authorize, describe_instance, run_instances, create_volume, wait_running,
  attach_volume, time, sleep,
}

-- The state and the address that `get_instance_state` returns.
pub record Info : Type 0 where
  pub state : String
  pub public_ip : Option String

pub record Reply : Type 0 where
  pub status : ℕ
  pub body : Fields ℕ

-- An address in an f-string
abbrev pub shown : Option String → String
shown none = "None"
shown (some s) = s

abbrev pub is_truthy : Option String → Bool
is_truthy none = false
is_truthy (some s) = not (is_blank s)

abbrev pub text_or_null : Option String → Json ℕ
text_or_null none = null
text_or_null (some s) = str s

url : String → ℕ → String → String
url protocol port ip = protocol <> ("://" <> (ip <> (":" <> show_ℕ port)))

-- `ENDPOINTS` and `build_endpoints`
pub build_endpoints : Option String → Json ℕ
unfolding url
build_endpoints public_ip =
    let ip = shown public_ip in
    obj (
      field "dcv_desktop" (str (url "https" 8443 ip)) (
        field "frontend" (str (url "http" 5173 ip)) (
          field "backend" (str (url "http" 5000 ip)) (
            field "supabase_studio" (str (url "http" 54323 ip))
              (field "supabase_api" (str (url "http" 54321 ip)) end)))))

abbrev pub user_key : String → String
user_key username = "USER#" <> username

abbrev pub limit_key : String → String
limit_key source_ip = "RATELIMIT#" <> source_ip

-- All the ports of `update_security_group`
abbrev tcp_ports : List ℕ
tcp_ports = 22 ∷ 5000 ∷ 5173 ∷ 8080 ∷ 8443 ∷ 54321 ∷ 54323 ∷ []

ingress_rule : String → String → ℕ → Rule
ingress_rule source_ip protocol port = record {
  protocol = protocol;
  port = port;
  cidr = source_ip <> "/32";
  description = "Auto-provisioned for " <> source_ip;
}

pub ingress_rules : String → List Rule
unfolding ingress_rule
ingress_rules source_ip =
    map (ingress_rule source_ip "tcp") tcp_ports ++ (ingress_rule source_ip "udp" 8443 ∷ [])

is_cidr : String → Option String → Bool
is_cidr cidr none = false
is_cidr cidr (some c) = str_eq c cidr

abbrev pub head_or : {A : Type 0} → PyError → List A → Result A
head_or e [] = err e
head_or e (x ∷ xs) = ok x

module _ (w : Cloud) (rate_limit : ℕ) where
  abbrev pub now : Calls Call ℕ
  now = ask time (λ h. ok (w.time h))

  -- `int(time.time())`
  abbrev pub seconds : Calls Call ℕ
  seconds = do t ← now; pure (t / 1000000)

  unfoldable pub after_create : String → String → Result (Unit {0}) → Calls Call (Unit {0})
  after_create name value (ok _) = pure tt
  after_create name value (err (client code)) =
      if str_eq code "ParameterAlreadyExists"
      then ask (overwrite_parameter name value) (λ h. w.overwrite_parameter h name value)
      else raise (client code)
  after_create name value (err e) = raise e

  unfoldable pub store_claude_api_key : String → String → Calls Call (Unit {0})
  unfolding after_create
  store_claude_api_key username claude_api_key = if is_blank claude_api_key then pure tt else do
    let name = "/infra-lab/desktop/" <> (username <> "/claude-api-key")
    outcome ←
        attempt (
          ask (create_parameter name claude_api_key)
            (λ h. w.create_parameter h name claude_api_key))
    after_create name claude_api_key outcome

  -- `float(item.get("timestamp", 0))`
  abbrev pub timestamp_of : Option (Json ℕ) → Result ℕ
  timestamp_of none = ok 0
  timestamp_of (some (num n)) = ok n
  timestamp_of (some (bool b)) = ok (if b then 1 else 0)
  timestamp_of (some (str s)) = w.float_text s
  timestamp_of (some v) = err type_error

  -- Whether a request is let through, by the item of its address. A ClientError lets it through.
  unfoldable pub after_limit : Result (Option (Fields ℕ)) → Calls Call Bool
  after_limit (ok none) = pure true
  after_limit (ok (some item)) = do
    last_request ← lift (timestamp_of (member "timestamp" item))
    t ← now
    pure (not (ltb t ((last_request + rate_limit) * 1000000)))
  after_limit (err (client code)) = pure true
  after_limit (err e) = raise e

  unfoldable pub check_rate_limit : String → Calls Call Bool
  unfolding after_limit
  check_rate_limit source_ip = do
    found ← attempt (ask (get_item (limit_key source_ip)) (λ h. w.get_item h (limit_key source_ip)))
    after_limit found

  unfoldable pub record_rate_limit : String → Calls Call (Unit {0})
  record_rate_limit source_ip = do
    timestamp ← seconds
    later ← seconds
    let item : Fields ℕ =
        field "timestamp" (num timestamp) (field "ttl" (num (later + rate_limit * 2)) end)
    ask (put_item (limit_key source_ip) item) (λ h. w.put_item h (limit_key source_ip) item)

  unfoldable pub update_security_group : String → Calls Call (Unit {0})
  unfolding ingress_rules is_cidr
  update_security_group source_ip = do
    groups ← ask describe_group w.describe_group
    permissions ← lift (head_or index_error groups)
    if any (any (is_cidr (source_ip <> "/32"))) permissions
        then pure tt
        else ask (authorize (ingress_rules source_ip))
            (λ h. w.authorize h (ingress_rules source_ip))

  -- `result["Reservations"][0]["Instances"][0]` and its members
  unfoldable pub info_of : List (List Instance) → Result Info
  info_of ((i ∷ is) ∷ rs) = elim i.state [
    | none ↦ err key_error
    | some state ↦ ok (record { state = state; public_ip = i.public_ip })
  ]
  info_of reservations = err index_error

  unfoldable pub or_gone : Result Info → Calls Call (Option Info)
  or_gone (ok info) = pure (some info)
  or_gone (err (client code)) = pure none
  or_gone (err index_error) = pure none
  or_gone (err key_error) = pure none
  or_gone (err e) = raise e

  unfoldable pub get_instance_state : String → Calls Call (Option Info)
  unfolding info_of or_gone
  get_instance_state instance_id = do
    found ← attempt (do
      reservations ← ask (describe_instance instance_id) (λ h. w.describe_instance h instance_id)
      lift (info_of reservations))
    or_gone found

  -- `info and info.get("public_ip")`, where that is true
  abbrev pub address_of : Option Info → Option String
  address_of none = none
  address_of (some info) = if is_truthy info.public_ip then info.public_ip else none

  unfoldable pub poll_ip : ℕ → String → Calls Call (Option String)
  unfolding get_instance_state
  poll_ip zero instance_id = pure none
  poll_ip (suc rounds) instance_id = do
    info ← get_instance_state instance_id
    let later = poll_ip rounds instance_id
    if is_truthy (address_of info)
        then pure (address_of info)
        else do ask (sleep 5) (λ h. ok tt); later

  -- `wait_for_ip` with its default of 60 seconds
  unfoldable pub wait_for_ip : String → Calls Call (Option String)
  unfolding poll_ip
  wait_for_ip instance_id = poll_ip 12 instance_id

  unfoldable pub launch_new_instance : String → Calls Call (String × String)
  launch_new_instance username = do
    instances ← ask (run_instances username) (λ h. w.run_instances h username)
    instance_id ← lift (head_or index_error instances)
    volume ← ask (create_volume username) (λ h. w.create_volume h username)
    ask (wait_running instance_id) (λ h. w.wait_running h instance_id)
    ask (attach_volume volume instance_id) (λ h. w.attach_volume h volume instance_id)
    pure (instance_id, volume)
