-- ===== src/Desktop/Tests.antt =====
-- Examples for the desktop provisioner: a cloud where nothing exists yet.
use infra_lab.Base.{◌≡◌, refl, false, none, some, [], ◌∷◌, ok, List}
use infra_lab.Base.Effects.{Spares, AtMost}
use infra_lab.Base.Json.{end, field, num, str, obj}
use infra_lab.Desktop.Cloud.{Cloud, Call, run_instances}
use infra_lab.Desktop.Steps.{check_rate_limit}
use infra_lab.Desktop.Handler.{Event, api_key_of, post, handler}
use infra_lab.Desktop.Handler.Safety.{is_grant, is_launch, handler-Spares, post-Spares, post-AtMost}

abbrev empty_cloud : Cloud
empty_cloud = record {
  create_parameter = λ h name value. ok tt;
  overwrite_parameter = λ h name value. ok tt;
  get_item = λ h key. ok none;
  put_item = λ h key item. ok tt;
  update_item = λ h key ip at. ok tt;
  delete_item = λ h key. ok tt;
  describe_group = λ h. ok ([] ∷ []);
  authorize = λ h rules. ok tt;
  describe_instance =
      λ h id. ok ((record { state = some "running"; public_ip = some "203.0.113.7" } ∷ []) ∷ []);
  start_instances = λ h id. ok tt;
  run_instances = λ h username. ok ("i-1" ∷ []);
  create_volume = λ h username. ok "vol-1";
  wait_running = λ h id. ok tt;
  attach_volume = λ h volume id. ok tt;
  time = λ h. 1000000000;
  loads = λ text. ok (obj (field "username" (str "bob") end));
  float_text = λ text. ok 0;
}

abbrev wrong_key : Event
wrong_key = record {
  headers = ("x-api-key", "guess") ∷ [];
  identity_ip = some "198.51.100.1";
  http_method = some "POST";
  body = none;
  query = none;
}

handler-Spares_example : Spares is_grant (handler empty_cloud 180 "secret" wrong_key)
unfolding api_key_of
handler-Spares_example = handler-Spares empty_cloud 180 "secret" wrong_key refl

-- The same cloud where the address asked 100 seconds ago.
abbrev busy_cloud : Cloud
busy_cloud = record empty_cloud { get_item = λ h key. ok (some (field "timestamp" (num 900) end)) }

is_limited : (made : List Call) → (check_rate_limit busy_cloud 180 "198.51.100.1" made).0 ≡ ok false
unfolding check_rate_limit
is_limited made = refl

post-Spares_example : Spares is_grant (post busy_cloud 180 end "198.51.100.1" "bob")
post-Spares_example = post-Spares busy_cloud 180 end "198.51.100.1" "bob" is_limited

post-AtMost_example :
    AtMost is_launch (run_instances "bob") (post empty_cloud 180 end "198.51.100.1" "bob")
post-AtMost_example = post-AtMost empty_cloud 180 end "198.51.100.1" "bob"
