-- ===== src/Desktop/Handler/Safety.antt =====
-- What a request to desktop_provisioner.py may launch.
use infra_lab.Base.{
  ℕ, zero, suc, String, ◌≡◌, refl, Bool, true, false, not, ◌&&◌, ◌||◌, Option, none, some, List,
  Result, ok, err, client, str_eq,
}
use infra_lab.Base.Stateful.{◌>>=◌}
use infra_lab.Base.Effects.{
  Calls, Spares, Spares-if, Spares-bind, Spares-lift, spare_rules, Spares-if_false, Spares-within,
  Spares-known, AtMost, at_most_rules,
}
use infra_lab.Base.Text.{is_blank}
use infra_lab.Base.Json.{Fields}
use infra_lab.Desktop.Cloud.{Cloud, Call, run_instances, start_instances, create_volume, authorize}
use infra_lab.Desktop.Steps.{
  Info, store_claude_api_key, after_create, check_rate_limit, after_limit, record_rate_limit,
  update_security_group, get_instance_state, or_gone, poll_ip, wait_for_ip, launch_new_instance,
}
use infra_lab.Desktop.Handler.{
  Event, is_alnum, or_default, dispatch, provision, resume, by_state, by_record, or_no_record,
  accepted, after_check, post, after_find, get, handler, api_key_of,
}

-- The calls that launch an instance.
abbrev pub is_launch : Call → Bool
is_launch (run_instances username) = true
is_launch call = false

-- The calls that launch or start an instance, or open the security group.
abbrev pub is_grant : Call → Bool
is_grant (run_instances username) = true
is_grant (start_instances instance_id) = true
is_grant (create_volume username) = true
is_grant (authorize rules) = true
is_grant call = false

grant_of_launch : (c : Call) → is_launch c ≡ true → is_grant c ≡ true
grant_of_launch (run_instances username) h = refl
grant_of_launch _ h = cc

launches_nothing : {A : Type 0} (m : Calls Call A) → Spares is_grant m → Spares is_launch m
launches_nothing m spares = Spares-within is_launch is_grant m grant_of_launch spares

module _ (w : Cloud) (rate_limit : ℕ) where
  after_create-Spares :
      (name value : String) (r : Result (Unit {0}))
      → Spares is_grant (after_create w rate_limit name value r)
  unfolding after_create
  after_create-Spares name value (ok _) = search spare_rules
  after_create-Spares name value (err (client code)) = search spare_rules
  after_create-Spares name value (err _) = search spare_rules

  store_claude_api_key-Spares :
      (username key : String) → Spares is_grant (store_claude_api_key w rate_limit username key)
  unfolding store_claude_api_key
  store_claude_api_key-Spares username key = search (spare_rules, after_create-Spares)

  after_limit-Spares :
      (r : Result (Option (Fields ℕ))) → Spares is_grant (after_limit w rate_limit r)
  unfolding after_limit
  after_limit-Spares (ok none) = search spare_rules
  after_limit-Spares (ok (some item)) = search spare_rules
  after_limit-Spares (err (client code)) = search spare_rules
  after_limit-Spares (err _) = search spare_rules

  check_rate_limit-Spares :
      (source_ip : String) → Spares is_grant (check_rate_limit w rate_limit source_ip)
  unfolding check_rate_limit
  check_rate_limit-Spares source_ip = search (spare_rules, after_limit-Spares)

  or_gone-Spares : (r : Result Info) → Spares is_grant (or_gone w rate_limit r)
  unfolding or_gone
  or_gone-Spares (ok info) = search spare_rules
  or_gone-Spares (err (client code)) = search spare_rules
  or_gone-Spares (err _) = search spare_rules

  get_instance_state-Spares : (id : String) → Spares is_grant (get_instance_state w rate_limit id)
  unfolding get_instance_state
  get_instance_state-Spares id = search (spare_rules, or_gone-Spares) depth 8

  after_find-Spares :
      (username : String) (r : Result (Option (Fields ℕ)))
      → Spares is_grant (after_find w rate_limit username r)
  unfolding after_find
  after_find-Spares username (ok none) = search spare_rules
  after_find-Spares username (ok (some item)) = search (spare_rules, get_instance_state-Spares)
  after_find-Spares username (err (client code)) = search spare_rules
  after_find-Spares username (err _) = search spare_rules

  get-Spares : (query : Option (List (String × String))) → Spares is_grant (get w rate_limit query)
  unfolding get
  get-Spares none = search spare_rules
  get-Spares (some query) = search (spare_rules, after_find-Spares) depth 8

  dispatch-Spares :
      (event : Event) (body : Fields ℕ) (name : String)
      → str_eq (or_default "GET" event.http_method) "POST" ≡ false
      → Spares is_grant (dispatch w rate_limit event body name)
  unfolding dispatch
  dispatch-Spares event body name other = search (Spares-if_false, spare_rules, get-Spares)

  -- A request with a wrong key, or by another method than POST, launches and starts no instance and
  -- opens no port, whatever else it holds and whether it is answered or raises.
  pub handler-Spares :
      (api_secret : String) (event : Event)
      → (str_eq (api_key_of event) api_secret && str_eq (or_default "GET" event.http_method) "POST")
        ≡ false
      → Spares is_grant (handler w rate_limit api_secret event)
  unfolding handler
  handler-Spares api_secret event refused = go (str_eq (api_key_of event) api_secret) refl refused
    where
      go :
          (key : Bool)
          → str_eq (api_key_of event) api_secret ≡ key
          → (key && str_eq (or_default "GET" event.http_method) "POST") ≡ false
          → Spares is_grant (handler w rate_limit api_secret event)
      go false e h = rw e (search spare_rules)
      go true e h = rw e (search (spare_rules, dispatch-Spares) depth 8)

  -- Where the address of a POST is found to be limited, whatever was done before, the request launches
  -- and starts no instance and opens no port.
  pub post-Spares :
      (body : Fields ℕ) (source_ip username : String)
      → ((made : List Call) → (check_rate_limit w rate_limit source_ip made).0 ≡ ok false)
      → Spares is_grant (post w rate_limit body source_ip username)
  unfolding post after_check
  post-Spares body source_ip username limited =
      Spares-if (is_blank username || not (is_alnum username)) _ _ (search spare_rules) (
        Spares-bind _ _ (Spares-lift _) (λ key.
          Spares-bind _ _ (store_claude_api_key-Spares username key) (λ stored. limited_check)))
    where
      limited_check :
          Spares is_grant (
            check_rate_limit w rate_limit source_ip >>= after_check w rate_limit source_ip username)
      limited_check =
          Spares-known (check_rate_limit w rate_limit source_ip)
            (after_check w rate_limit source_ip username) false limited
            (check_rate_limit-Spares source_ip) (search spare_rules)

  update_security_group-Spares :
      (source_ip : String) → Spares is_launch (update_security_group w rate_limit source_ip)
  unfolding update_security_group
  update_security_group-Spares source_ip = search spare_rules

  poll_ip-Spares : (rounds : ℕ) (id : String) → Spares is_launch (poll_ip w rate_limit rounds id)
  unfolding poll_ip
  poll_ip-Spares zero id = search spare_rules
  poll_ip-Spares (suc rounds) id =
      let later = poll_ip-Spares rounds id in
      search (spare_rules, launches_nothing, get_instance_state-Spares) depth 8

  wait_for_ip-Spares : (id : String) → Spares is_launch (wait_for_ip w rate_limit id)
  unfolding wait_for_ip
  wait_for_ip-Spares id = poll_ip-Spares 12 id

  launch-AtMost :
      (username : String)
      → AtMost is_launch (run_instances username) (launch_new_instance w rate_limit username)
  unfolding launch_new_instance
  launch-AtMost username = search at_most_rules depth 8

  provision-AtMost :
      (username source_ip : String)
      → AtMost is_launch (run_instances username) (provision w rate_limit username source_ip)
  unfolding provision
  provision-AtMost username source_ip =
      search (at_most_rules, launch-AtMost, update_security_group-Spares, wait_for_ip-Spares) depth
        10

  resume-Spares :
      (username source_ip id : String)
      → Spares is_launch (resume w rate_limit username source_ip id)
  unfolding resume
  resume-Spares username source_ip id =
      search (spare_rules, update_security_group-Spares, wait_for_ip-Spares) depth 10

  by_state-AtMost :
      (username source_ip id : String) (info : Option Info)
      → AtMost is_launch (run_instances username) (by_state w rate_limit username source_ip id info)
  unfolding by_state
  by_state-AtMost username source_ip id none = search (at_most_rules, provision-AtMost)
  by_state-AtMost username source_ip id (some info) =
      search (at_most_rules, provision-AtMost, resume-Spares, update_security_group-Spares) depth 8

  by_record-AtMost :
      (username source_ip : String) (found : Option (Fields ℕ))
      → AtMost is_launch (run_instances username) (by_record w rate_limit username source_ip found)
  unfolding by_record
  by_record-AtMost username source_ip none = provision-AtMost username source_ip
  by_record-AtMost username source_ip (some item) =
      search (at_most_rules, launches_nothing, get_instance_state-Spares, by_state-AtMost) depth 8

  or_no_record-Spares :
      (r : Result (Option (Fields ℕ))) → Spares is_launch (or_no_record w rate_limit r)
  unfolding or_no_record
  or_no_record-Spares (ok found) = search spare_rules
  or_no_record-Spares (err (client code)) = search spare_rules
  or_no_record-Spares (err _) = search spare_rules

  accepted-AtMost :
      (source_ip username : String)
      → AtMost is_launch (run_instances username) (accepted w rate_limit source_ip username)
  unfolding accepted record_rate_limit
  accepted-AtMost source_ip username =
      search (at_most_rules, or_no_record-Spares, by_record-AtMost) depth 14

  after_check-AtMost :
      (source_ip username : String) (free : Bool)
      → AtMost is_launch (run_instances username) (after_check w rate_limit source_ip username free)
  unfolding after_check
  after_check-AtMost source_ip username true = accepted-AtMost source_ip username
  after_check-AtMost source_ip username false = search at_most_rules

  -- A POST launches at most one instance, and that for the user name that it was called with, whether
  -- it is answered or raises.
  pub post-AtMost :
      (body : Fields ℕ) (source_ip username : String)
      → AtMost is_launch (run_instances username) (post w rate_limit body source_ip username)
  unfolding post
  post-AtMost body source_ip username =
      search
        (
          at_most_rules, launches_nothing, store_claude_api_key-Spares, check_rate_limit-Spares,
          after_check-AtMost,
        )
        depth 8
