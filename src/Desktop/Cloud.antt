-- ===== src/Desktop/Cloud.antt =====
-- What the desktop provisioner calls: EC2, SSM, the DynamoDB table, the clock. The reply to a call is a
-- function of the calls before it.
use infra_lab.Base.{ℕ, String, Option, List, Result}
use infra_lab.Base.Json.{Json, Fields}

-- One rule of `authorize_security_group_ingress`: the port is the first and the last.
pub record Rule : Type 0 where
  pub protocol : String
  pub port : ℕ
  pub cidr : String
  pub description : String

-- An instance as `describe_instances` has it; `none` is a missing key.
pub record Instance : Type 0 where
  pub state : Option String
  pub public_ip : Option String

pub data Call : Type 0 where
  -- `put_parameter` for a new parameter with tags, and with Overwrite=True
  create_parameter overwrite_parameter : String → String → Call
  get_item delete_item : String → Call
  put_item : String → Fields ℕ → Call
  -- the key, the address and the time of `update_item`
  update_item : String → String → ℕ → Call
  describe_group : Call
  authorize : List Rule → Call
  describe_instance start_instances : String → Call
  -- for a user name: the instance with its tags, and the data volume with its tags
  run_instances create_volume : String → Call
  wait_running : String → Call
  -- volume and instance
  attach_volume : String → String → Call
  time : Call
  sleep : ℕ → Call

pub record Cloud : Type 0 where
  pub create_parameter : List Call → String → String → Result (Unit {0})
  pub overwrite_parameter : List Call → String → String → Result (Unit {0})
  -- `none` where the reply has no Item
  pub get_item : List Call → String → Result (Option (Fields ℕ))
  pub put_item : List Call → String → Fields ℕ → Result (Unit {0})
  pub update_item : List Call → String → String → ℕ → Result (Unit {0})
  pub delete_item : List Call → String → Result (Unit {0})
  -- the CIDRs of the ranges of the rules of the groups
  pub describe_group : List Call → Result (List (List (List (Option String))))
  pub authorize : List Call → List Rule → Result (Unit {0})
  -- the instances of the reservations
  pub describe_instance : List Call → String → Result (List (List Instance))
  pub start_instances : List Call → String → Result (Unit {0})
  pub run_instances : List Call → String → Result (List String)
  pub create_volume : List Call → String → Result String
  pub wait_running : List Call → String → Result (Unit {0})
  pub attach_volume : List Call → String → String → Result (Unit {0})
  -- `time.time()`, in microseconds
  pub time : List Call → ℕ
  -- `json.loads`, and `float` of a text, in whole units
  pub loads : String → Result (Json ℕ)
  pub float_text : String → Result ℕ
