-- ===== src/Foundation/Services.antt =====
-- The checks of the security and cost services in validate_foundation.py: CloudTrail, GuardDuty,
-- Security Hub, budgets and anomalies.
use infra_lab.Base.{
  String, true, false, not, some, List, [], ◌∷◌, map, all, any, if◌then◌else◌, Result, ok, err,
  attribute_error, Exec,
}
use infra_lab.Base.Stateful.{lift, ◌>>=◌, ◌>>◌}
use infra_lab.Base.Text.{◌<>◌, join, split, has_text}
use infra_lab.Base.Number.{Number, truthy}
use infra_lab.Base.Json.{Json, Fields, none_left, null, str, arr, member}
use infra_lab.Foundation.Suite.{
  Env, Suite, Severity, fail, warn, add, add_either, for_each, aws_json, get_or, dict_of, is_text,
  iterate, get_each, first_item, set_of, text_only, texts_of, on_reply,
}

abbrev pub gd_expected_frequency : String
gd_expected_frequency = "SIX_HOURS"

abbrev pub sh_expected_standards : List String
sh_expected_standards =
    "aws-foundational-security-best-practices" ∷ "cis-aws-foundations-benchmark" ∷ []

module _ {F : Type 0} ⦃number : Number F⦄ where
  -- `[t for t in trails if t.get(key)]`
  unfoldable pub keep_set : String → List (Json F) → Result (List (Fields F))
  keep_set key [] = ok []
  keep_set key (v ∷ vs) = elim (dict_of v) [
    | err e ↦ err e
    | ok d ↦ elim (keep_set key vs) [
      | err e ↦ err e
      | ok rest ↦ ok (if truthy (member key d) then d ∷ rest else rest)
    ]
  ]

  -- A result for a member that is set or not.
  unfoldable pub add_set :
      String → String → Fields F → String → String → Severity → Exec Suite (Unit {0})
  add_set name key d good bad severity = add_either name (truthy (member key d)) good bad severity

-- `arn.split("/")[-1]`
last_part : List String → String
last_part [] = ""
last_part (p ∷ []) = p
last_part (p ∷ q ∷ ps) = last_part (q ∷ ps)

unfoldable pub arn_name : String → String
unfolding last_part split
arn_name arn = last_part (split b'/' arn)

module _ {F : Type 0} ⦃number : Number F⦄ (env : Env F) (profile : String) where
  unfoldable pub check_logging : Fields F → Fields F → Exec Suite (Unit {0})
  unfolding add_set
  check_logging trail status =
      add_set "e03.cloudtrail.logging" "IsLogging" status "CloudTrail is actively logging"
        "CloudTrail is NOT logging" fail
      >> add_set "e03.cloudtrail.cloudwatch_logs" "CloudWatchLogsLogGroupArn" trail
          "CloudTrail CloudWatch Logs integration present"
          "CloudTrail running in S3-only mode (known exception)" warn

  unfoldable pub check_first_trail : String → List (Fields F) → Exec Suite (Unit {0})
  unfolding add_set check_logging aws_json on_reply
  check_first_trail primary_region [] =
      add "e03.cloudtrail.org_trail" false "no organization trail found" fail
  check_first_trail primary_region (trail ∷ trails) = do
    trail_name ← lift (text_only (get_or "Name" (str "<unnamed>") trail))
    add "e03.cloudtrail.org_trail" true ("organization trail found: " <> trail_name) fail
    add_set "e03.cloudtrail.multi_region" "IsMultiRegionTrail" trail "org trail is multi-region"
        "org trail is NOT multi-region" fail
    add_set "e03.cloudtrail.kms" "KmsKeyId" trail "CloudTrail KMS CMK configured"
        "CT-managed trail KmsKeyId not surfaced (known exception)" warn
    add_set "e03.cloudtrail.log_file_validation" "LogFileValidationEnabled" trail
        "log file validation enabled" "log file validation not enabled" fail
    status ←
        aws_json env profile ("cloudtrail" ∷ "get-trail-status" ∷ "--name" ∷ trail_name ∷ [])
          (some primary_region)
    on_reply "e03.cloudtrail.logging" fail (check_logging trail) status

  unfoldable pub check_trails : String → Fields F → Exec Suite (Unit {0})
  unfolding keep_set iterate check_first_trail
  check_trails primary_region reply = do
    trails ← lift (iterate (get_or "trailList" (arr none_left) reply))
    org_trails ← lift (keep_set "IsOrganizationTrail" trails)
    check_first_trail primary_region org_trails

  unfoldable pub check_cloudtrail : String → Exec Suite (Unit {0})
  unfolding aws_json on_reply check_trails
  check_cloudtrail primary_region =
      aws_json env profile ("cloudtrail" ∷ "describe-trails" ∷ "--include-shadow-trails" ∷ [])
        (some primary_region)
      >>= on_reply "e03.cloudtrail.describe" fail (check_trails primary_region)

  -- The administrators of a reply, as a set.
  unfoldable pub admins_of : String → Fields F → Result (List (Json F))
  unfolding iterate get_each set_of
  admins_of key reply = elim (iterate (get_or "AdminAccounts" (arr none_left) reply)) [
    | err e ↦ err e
    | ok items ↦ elim (get_each key (str "") items) [ err e ↦ err e | ok ids ↦ set_of ids ]
  ]

  unfoldable pub check_gd_admin : String → Fields F → Exec Suite (Unit {0})
  unfolding admins_of
  check_gd_admin admin_account reply = do
    admins ← lift (admins_of "AdminAccountId" reply)
    add_either "e03.guardduty.admin_account" (any (is_text admin_account) admins)
        ("GuardDuty delegated admin confirmed: " <> admin_account)
        ("expected admin not in: " <> env.show_set admins) fail

  -- The detail needs a frequency that is a text only where it is not the expected one.
  unfoldable pub check_frequency : String → Json F → Exec Suite (Unit {0})
  check_frequency region actual =
      if is_text gd_expected_frequency actual
      then add ("e03.guardduty.finding_frequency." <> region) true
          ("finding frequency " <> (gd_expected_frequency <> (" in " <> region))) fail
      else lift (text_only actual) >>= λ freq.
          add ("e03.guardduty.finding_frequency." <> region) false
            ("finding frequency is " <> (freq <> (" in " <> region))) fail

  unfoldable pub check_detector : String → Fields F → Exec Suite (Unit {0})
  unfolding check_frequency
  check_detector region detector =
      add_either ("e03.guardduty.detector." <> region)
        (is_text "ENABLED" (get_or "Status" null detector)) ("detector ENABLED in " <> region)
        ("detector not ENABLED in " <> region) fail
      >> check_frequency region (get_or "FindingPublishingFrequency" (str "") detector)

  unfoldable pub check_detector_ids : String → Fields F → Exec Suite (Unit {0})
  unfolding check_detector first_item aws_json on_reply
  check_detector_ids region reply =
      let ids = get_or "DetectorIds" (arr none_left) reply in
      if not (truthy (some ids))
      then add ("e03.guardduty.detector." <> region) false ("no GuardDuty detector in " <> region)
          fail
      else do
        first ← lift (first_item ids)
        id ← lift (text_only first)
        detector ←
            aws_json env profile ("guardduty" ∷ "get-detector" ∷ "--detector-id" ∷ id ∷ [])
              (some region)
        on_reply ("e03.guardduty.detector." <> region) fail (check_detector region) detector

  unfoldable pub check_region : String → Exec Suite (Unit {0})
  unfolding check_detector_ids aws_json on_reply
  check_region region =
      aws_json env profile ("guardduty" ∷ "list-detectors" ∷ []) (some region)
      >>= on_reply ("e03.guardduty.detector." <> region) fail (check_detector_ids region)

  -- The primary region, which is the first one, and the replica region.
  unfoldable pub check_guardduty : String → String → String → Exec Suite (Unit {0})
  unfolding check_gd_admin check_region aws_json on_reply for_each
  check_guardduty admin_account primary_region replica_region = do
    admins ←
        aws_json env profile ("guardduty" ∷ "list-organization-admin-accounts" ∷ [])
          (some primary_region)
    on_reply "e03.guardduty.admin_account" fail (check_gd_admin admin_account) admins
    for_each (primary_region ∷ replica_region ∷ []) check_region

  unfoldable pub check_sh_admin : String → Fields F → Exec Suite (Unit {0})
  unfolding admins_of
  check_sh_admin admin_account reply = do
    admins ← lift (admins_of "AccountId" reply)
    add_either "e03.securityhub.admin_account" (any (is_text admin_account) admins)
        ("Security Hub delegated admin confirmed: " <> admin_account)
        "expected admin not found in admin accounts" fail

  -- An ARN that is no text has no `split`.
  arns_of : List (Json F) → Result (List String)
  arns_of [] = ok []
  arns_of (str s ∷ vs) = elim (arns_of vs) [ ok rest ↦ ok (s ∷ rest) | err e ↦ err e ]
  arns_of (v ∷ vs) = err attribute_error

  unfoldable pub check_standards : Fields F → Exec Suite (Unit {0})
  unfolding iterate get_each arns_of arn_name has_text
  check_standards reply = do
    subs ← lift (iterate (get_or "StandardsSubscriptions" (arr none_left) reply))
    found ← lift (get_each "StandardsArn" (str "") subs)
    arns ← lift (arns_of found)
    let names = join ", " (map arn_name arns)
    add_either "e03.securityhub.standards"
        (all (λ standard. has_text (join " " arns) standard) sh_expected_standards)
        ("expected standards enabled: " <> names) ("missing expected standards. Found: " <> names)
        fail

  unfoldable pub check_finding_aggregators : Fields F → Exec Suite (Unit {0})
  unfolding add_set
  check_finding_aggregators reply =
      add_set "e03.securityhub.finding_aggregator" "FindingAggregators" reply
        "finding aggregator present" "no finding aggregator found — check securityhub_standards.tf"
        fail

  -- The second profile is the one of the audit account.
  unfoldable pub check_security_hub : String → String → String → Exec Suite (Unit {0})
  unfolding check_sh_admin check_standards check_finding_aggregators aws_json on_reply
  check_security_hub audit_profile admin_account primary_region = do
    admins ←
        aws_json env profile ("securityhub" ∷ "list-organization-admin-accounts" ∷ [])
          (some primary_region)
    on_reply "e03.securityhub.admin_account" fail (check_sh_admin admin_account) admins
    standards ←
        aws_json env audit_profile ("securityhub" ∷ "get-enabled-standards" ∷ [])
          (some primary_region)
    on_reply "e03.securityhub.standards" fail check_standards standards
    aggs ←
        aws_json env audit_profile ("securityhub" ∷ "list-finding-aggregators" ∷ [])
          (some primary_region)
    on_reply "e03.securityhub.finding_aggregator" fail check_finding_aggregators aggs

  unfoldable pub check_budgets : Fields F → Exec Suite (Unit {0})
  unfolding iterate get_each texts_of
  check_budgets reply = do
    let budgets = get_or "Budgets" (arr none_left) reply
    items ← lift (iterate budgets)
    found ← lift (get_each "BudgetName" (str "") items)
    names ← lift (texts_of found)
    add_either "e03.finops.budgets" (truthy (some budgets))
        ("budget(s) configured: " <> join ", " names) "no budgets found" fail

  unfoldable pub check_budgets_and_anomalies : String → String → Exec Suite (Unit {0})
  unfolding check_budgets add_set aws_json on_reply
  check_budgets_and_anomalies mgmt_account primary_region = do
    budgets ←
        aws_json env profile ("budgets" ∷ "describe-budgets" ∷ "--account-id" ∷ mgmt_account ∷ [])
          (some primary_region)
    on_reply "e03.finops.budgets" fail check_budgets budgets
    monitors ← aws_json env profile ("ce" ∷ "get-anomaly-monitors" ∷ []) (some primary_region)
    on_reply "e03.finops.anomaly_monitors" fail
        (λ reply.
          add_set "e03.finops.anomaly_monitors" "AnomalyMonitors" reply
            "anomaly monitor(s) configured" "no cost anomaly monitors found" fail)
        monitors
    subs ← aws_json env profile ("ce" ∷ "get-anomaly-subscriptions" ∷ []) (some primary_region)
    on_reply "e03.finops.anomaly_subscriptions" fail
        (λ reply.
          add_set "e03.finops.anomaly_subscriptions" "AnomalySubscriptions" reply
            "anomaly subscription(s) configured" "no cost anomaly subscriptions found" fail)
        subs
