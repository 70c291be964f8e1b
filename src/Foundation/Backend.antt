-- ===== src/Foundation/Backend.antt =====
-- `check_state_backend`, `check_control_tower` and `check_config_aggregator` of
-- validate_foundation.py.
use infra_lab.Base.{
  String, Bool, true, false, not, ◌&&◌, ◌||◌, some, List, [], ◌∷◌, if◌then◌else◌, Result, ok, err,
  type_error, attribute_error, Exec,
}
use infra_lab.Base.Stateful.{pure, lift, ◌>>=◌, ◌>>◌}
use infra_lab.Base.Text.{◌<>◌}
use infra_lab.Base.Number.{Number, truthy}
use infra_lab.Base.Json.{Json, Fields, none_left, end, field, null, arr, obj, member}
use infra_lab.Foundation.Suite.{
  Env, Suite, AwsReply, answered, failed, fail, warn, add, add_either, aws_json, get_or, dict_of,
  is_text, iterate, any_of, first_item, on_reply,
}

abbrev pub default_replica_bucket_arn : String
default_replica_bucket_arn = "arn:aws:s3:::infra-lab-tf-state-replica-551452024305"

module _ {F : Type 0} where
  -- `v.get(key, {})`
  abbrev pub dict_at : String → Json F → Result (Json F)
  dict_at key v = elim (dict_of v) [ err e ↦ err e | ok d ↦ ok (get_or key (obj end) d) ]

  -- `v.get(key, default)`
  abbrev pub value_at : String → Json F → Json F → Result (Json F)
  value_at key default v = elim (dict_of v) [ err e ↦ err e | ok d ↦ ok (get_or key default d) ]

  -- `rule.get(outer, {}).get(inner) == text`
  unfoldable pub has_nested : String → String → String → Json F → Result Bool
  has_nested outer inner t rule = elim (dict_at outer rule) [
    | err e ↦ err e
    | ok v ↦ elim (value_at inner null v) [ err e ↦ err e | ok found ↦ ok (is_text t found) ]
  ]

  -- `any(... for rule in data.get(outer, {}).get("Rules", []))`
  unfoldable pub any_rule : String → (Json F → Result Bool) → Fields F → Result Bool
  unfolding any_of iterate
  any_rule outer p reply = elim (value_at "Rules" (arr none_left) (get_or outer (obj end) reply)) [
    | err e ↦ err e
    | ok rules ↦ elim (iterate rules) [ err e ↦ err e | ok vs ↦ any_of p vs ]
  ]

module _ {F : Type 0} ⦃number : Number F⦄ where
  all_set : Fields F → Bool
  all_set end = true
  all_set (field k v rest) = truthy (some v) && all_set rest

  none_or_raise : List (Json F) → Result Bool
  none_or_raise [] = ok true
  none_or_raise (v ∷ vs) = err attribute_error

  -- `all(bool(block.get(k)) for k in block)`
  unfoldable pub is_all_set : Json F → Result Bool
  unfolding all_set none_or_raise iterate
  is_all_set (obj d) = ok (all_set d)
  is_all_set v = elim (iterate v) [ err e ↦ err e | ok vs ↦ none_or_raise vs ]

module _ {F : Type 0} ⦃number : Number F⦄ (env : Env F) where
  unfoldable pub check_encryption : Fields F → Exec Suite (Unit {0})
  unfolding any_rule has_nested
  check_encryption reply = do
    kms_ok ← lift (
        any_rule "ServerSideEncryptionConfiguration"
          (has_nested "ApplyServerSideEncryptionByDefault" "SSEAlgorithm" "aws:kms") reply)
    add_either "e02.aws.state_bucket.encryption" kms_ok "state bucket SSE-KMS encryption confirmed"
        "state bucket not using SSE-KMS" fail

  unfoldable pub check_versioning : Fields F → Exec Suite (Unit {0})
  check_versioning reply =
      add_either "e02.aws.state_bucket.versioning" (is_text "Enabled" (get_or "Status" null reply))
        "state bucket versioning enabled" "state bucket versioning not enabled" fail

  unfoldable pub check_public_access : Fields F → Exec Suite (Unit {0})
  unfolding is_all_set
  check_public_access reply = do
    block_ok ← lift (is_all_set (get_or "PublicAccessBlockConfiguration" (obj end) reply))
    add_either "e02.aws.state_bucket.public_access_block" block_ok
        "all public access block settings enabled" "public access block not fully enabled" fail

  unfoldable pub check_replication : AwsReply F → Exec Suite (Unit {0})
  unfolding any_rule has_nested
  check_replication (failed problem) =
      add "e02.aws.state_bucket.replication" false ("replication not configured: " <> problem) warn
  check_replication (answered v) = do
    reply ← lift (dict_of v)
    replica_ok ← lift (
        any_rule "ReplicationConfiguration"
          (has_nested "Destination" "Bucket" default_replica_bucket_arn) reply)
    add_either "e02.aws.state_bucket.replication" replica_ok
        "replication to replica bucket confirmed" "expected destination replica not found in rules"
        fail

  -- `value in {"ENABLED", "UPDATING"}`
  is_sse_on : Json F → Result Bool
  is_sse_on (arr vs) = err type_error
  is_sse_on (obj d) = err type_error
  is_sse_on v = ok (is_text "ENABLED" v || is_text "UPDATING" v)

  sse_of : Fields F → Result Bool
  sse_of table = elim (value_at "Status" null (get_or "SSEDescription" (obj end) table)) [
    | err e ↦ err e
    | ok status ↦ is_sse_on status
  ]

  unfoldable pub check_lock_table : String → Fields F → Exec Suite (Unit {0})
  unfolding sse_of is_sse_on
  check_lock_table lock_table reply = do
    table ← lift (dict_of (get_or "Table" (obj end) reply))
    add_either "e02.aws.lock_table.exists" (is_text lock_table (get_or "TableName" null table))
        "DynamoDB lock table exists" "lock table name mismatch" fail
    sse_ok ← lift (sse_of table)
    add_either "e02.aws.lock_table.sse" sse_ok "DynamoDB lock table SSE enabled"
        "DynamoDB lock table SSE not enabled" fail

  unfoldable pub check_state_backend : String → String → String → String → Exec Suite (Unit {0})
  unfolding aws_json on_reply check_encryption check_versioning check_public_access
      check_replication check_lock_table
  check_state_backend profile state_bucket lock_table primary_region = do
    let ask = λ (command : String).
        aws_json env profile ("s3api" ∷ command ∷ "--bucket" ∷ state_bucket ∷ [])
          (some primary_region)
    encryption ← ask "get-bucket-encryption"
    on_reply "e02.aws.state_bucket.encryption" fail check_encryption encryption
    versioning ← ask "get-bucket-versioning"
    on_reply "e02.aws.state_bucket.versioning" fail check_versioning versioning
    block ← ask "get-public-access-block"
    on_reply "e02.aws.state_bucket.public_access_block" fail check_public_access block
    replication ← ask "get-bucket-replication"
    check_replication replication
    table ←
        aws_json env profile ("dynamodb" ∷ "describe-table" ∷ "--table-name" ∷ lock_table ∷ [])
          (some primary_region)
    on_reply "e02.aws.lock_table.exists" fail (check_lock_table lock_table) table

  unfoldable pub check_landing_zones : Fields F → Exec Suite (Unit {0})
  check_landing_zones reply =
      add_either "e03.control_tower.landing_zone"
        (truthy (member "landingZones" reply) || truthy (member "LandingZones" reply))
        "Control Tower landing zone discovered" "no landing zone found" fail

  unfoldable pub check_control_tower : String → String → Exec Suite (Unit {0})
  unfolding aws_json on_reply check_landing_zones
  check_control_tower profile primary_region =
      aws_json env profile ("controltower" ∷ "list-landing-zones" ∷ []) (some primary_region)
      >>= on_reply "e03.control_tower.landing_zone" warn check_landing_zones

  -- The source of the first aggregator.
  unfoldable pub check_org_source : Json F → Exec Suite (Unit {0})
  unfolding first_item
  check_org_source aggs = if not (truthy (some aggs)) then pure tt else do
    first ← lift (first_item aggs)
    d ← lift (dict_of first)
    add_either "e03.config.aggregator.org_source"
        (truthy (member "OrganizationAggregationSource" d)) "aggregator uses organization source"
        "aggregator does not use organization source" fail

  unfoldable pub check_aggregators : Fields F → Exec Suite (Unit {0})
  unfolding check_org_source
  check_aggregators reply =
      let aggs = get_or "ConfigurationAggregators" (arr none_left) reply in
      add_either "e03.config.aggregator" (truthy (some aggs)) "Config aggregator present"
        "no Config aggregator found" fail
      >> check_org_source aggs

  unfoldable pub check_config_aggregator : String → String → Exec Suite (Unit {0})
  unfolding aws_json on_reply check_aggregators
  check_config_aggregator profile primary_region =
      aws_json env profile ("configservice" ∷ "describe-configuration-aggregators" ∷ [])
        (some primary_region)
      >>= on_reply "e03.config.aggregator" fail check_aggregators
