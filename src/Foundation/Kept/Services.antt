-- ===== src/Foundation/Kept/Services.antt =====
-- The checks of the organization and the services in validate_foundation.py take no recorded failure
-- back, nor do all checks together.
use infra_lab.Base.{String, List, [], ◌∷◌}
use infra_lab.Base.Number.{Number}
use infra_lab.Base.Json.{Json, Fields}
use infra_lab.Foundation.Suite.{Env, AwsReply, answered, failed}
use infra_lab.Foundation.Org.{
  check_account, check_aws_identity, check_principals, check_roots, check_feature_set,
  after_describe, check_organization, after_ous, check_ous, check_attached, check_target,
  check_policies, check_scps,
}
use infra_lab.Foundation.Services.{
  add_set, check_logging, check_first_trail, check_trails, check_cloudtrail, check_gd_admin,
  check_frequency, check_detector, check_detector_ids, check_region, check_guardduty,
  check_sh_admin, check_standards, check_finding_aggregators, check_security_hub, check_budgets,
  check_budgets_and_anomalies,
}
use infra_lab.Foundation.Main.{
  Args, after_tools, units, policies, service_checks, after_identity, aws_checks,
}
use infra_lab.Foundation.Keeps.{Keeps, keep_rules}
use infra_lab.Foundation.Kept.{
  reply_rules, structure-Keeps, standards-Keeps, pre_commit-Keeps, layout-Keeps, commands-Keeps,
  backend-Keeps, control_tower-Keeps, config-Keeps,
}

module _ {F : Type 0} ⦃number : Number F⦄ (env : Env F) (profile : String) where
  account-Keeps : (expected : String) (d : Fields F) → Keeps (check_account env profile expected d)
  unfolding check_account
  account-Keeps expected d = search keep_rules

  pub identity-Keeps : (expected : String) → Keeps (check_aws_identity env profile expected)
  unfolding check_aws_identity
  identity-Keeps expected = search (reply_rules, account-Keeps)

  principals-Keeps : (d : Fields F) → Keeps (check_principals env profile d)
  unfolding check_principals
  principals-Keeps d = search keep_rules depth 10

  roots-Keeps : (reply : AwsReply F) → Keeps (check_roots env profile reply)
  unfolding check_roots
  roots-Keeps (failed problem) = search keep_rules
  roots-Keeps (answered v) = search keep_rules depth 10

  feature_set-Keeps : (v : Json F) → Keeps (check_feature_set env profile v)
  unfolding check_feature_set
  feature_set-Keeps v = search keep_rules depth 8

  describe-Keeps : (reply : AwsReply F) → Keeps (after_describe env profile reply)
  unfolding after_describe
  describe-Keeps (failed problem) = search keep_rules
  describe-Keeps (answered v) =
      search (reply_rules, principals-Keeps, roots-Keeps, feature_set-Keeps) depth 12

  organization-Keeps : Keeps (check_organization env profile)
  unfolding check_organization
  organization-Keeps = search (reply_rules, describe-Keeps)

  after_ous-Keeps : (reply : AwsReply F) → Keeps (after_ous env profile reply)
  unfolding after_ous
  after_ous-Keeps (failed problem) = search keep_rules
  after_ous-Keeps (answered v) = search keep_rules depth 12

  ous-Keeps : (root_id : Json F) → Keeps (check_ous env profile root_id)
  unfolding check_ous
  ous-Keeps root_id = search (reply_rules, after_ous-Keeps) depth 8

  attached-Keeps :
      (names : Fields F) (label : String) (d : Fields F)
      → Keeps (check_attached env profile names label d)
  unfolding check_attached
  attached-Keeps names label d = search keep_rules depth 8

  target-Keeps :
      (names : Fields F) (target : String × Json F) → Keeps (check_target env profile names target)
  unfolding check_target
  target-Keeps names target = search (reply_rules, attached-Keeps) depth 10

  policies-Keeps :
      (root_id : Json F) (ou_map d : Fields F) → Keeps (check_policies env profile root_id ou_map d)
  unfolding check_policies
  policies-Keeps root_id ou_map d = search (keep_rules, target-Keeps) depth 10

  scps-Keeps :
      (root_id : Json F) (ou_map : Fields F) → Keeps (check_scps env profile root_id ou_map)
  unfolding check_scps
  scps-Keeps root_id ou_map = search (reply_rules, policies-Keeps)

  logging-Keeps : (trail status : Fields F) → Keeps (check_logging env profile trail status)
  unfolding check_logging add_set
  logging-Keeps trail status = search keep_rules

  first_trail-Keeps :
      (region : String) (trails : List (Fields F))
      → Keeps (check_first_trail env profile region trails)
  unfolding check_first_trail add_set
  first_trail-Keeps region [] = search keep_rules
  first_trail-Keeps region (trail ∷ trails) = search (reply_rules, logging-Keeps) depth 16

  trails-Keeps : (region : String) (d : Fields F) → Keeps (check_trails env profile region d)
  unfolding check_trails
  trails-Keeps region d = search (keep_rules, first_trail-Keeps) depth 8

  cloudtrail-Keeps : (region : String) → Keeps (check_cloudtrail env profile region)
  unfolding check_cloudtrail
  cloudtrail-Keeps region = search (reply_rules, trails-Keeps)

  gd_admin-Keeps : (admin : String) (d : Fields F) → Keeps (check_gd_admin env profile admin d)
  unfolding check_gd_admin
  gd_admin-Keeps admin d = search keep_rules depth 8

  frequency-Keeps : (region : String) (v : Json F) → Keeps (check_frequency env profile region v)
  unfolding check_frequency
  frequency-Keeps region v = search keep_rules depth 8

  detector-Keeps : (region : String) (d : Fields F) → Keeps (check_detector env profile region d)
  unfolding check_detector
  detector-Keeps region d = search (keep_rules, frequency-Keeps)

  detector_ids-Keeps :
      (region : String) (d : Fields F) → Keeps (check_detector_ids env profile region d)
  unfolding check_detector_ids
  detector_ids-Keeps region d = search (reply_rules, detector-Keeps) depth 10

  region-Keeps : (region : String) → Keeps (check_region env profile region)
  unfolding check_region
  region-Keeps region = search (reply_rules, detector_ids-Keeps)

  guardduty-Keeps :
      (admin first other : String) → Keeps (check_guardduty env profile admin first other)
  unfolding check_guardduty
  guardduty-Keeps admin first other = search (reply_rules, gd_admin-Keeps, region-Keeps) depth 8

  sh_admin-Keeps : (admin : String) (d : Fields F) → Keeps (check_sh_admin env profile admin d)
  unfolding check_sh_admin
  sh_admin-Keeps admin d = search keep_rules depth 8

  hub_standards-Keeps : (d : Fields F) → Keeps (check_standards env profile d)
  unfolding check_standards
  hub_standards-Keeps d = search keep_rules depth 10

  finding_aggregators-Keeps : (d : Fields F) → Keeps (check_finding_aggregators env profile d)
  unfolding check_finding_aggregators add_set
  finding_aggregators-Keeps d = search keep_rules

  hub-Keeps :
      (audit admin region : String) → Keeps (check_security_hub env profile audit admin region)
  unfolding check_security_hub
  hub-Keeps audit admin region =
      search (reply_rules, sh_admin-Keeps, hub_standards-Keeps, finding_aggregators-Keeps) depth 14

  budgets-Keeps : (d : Fields F) → Keeps (check_budgets env profile d)
  unfolding check_budgets
  budgets-Keeps d = search keep_rules depth 10

  finops-Keeps :
      (account region : String) → Keeps (check_budgets_and_anomalies env profile account region)
  unfolding check_budgets_and_anomalies add_set
  finops-Keeps account region = search (reply_rules, budgets-Keeps) depth 14

module _ {F : Type 0} ⦃number : Number F⦄ (env : Env F) (args : Args) where
  -- What follows the check of the tools.
  pub after_tools-Keeps : Keeps (after_tools env args)
  unfolding after_tools
  after_tools-Keeps =
      search
        (
          keep_rules, structure-Keeps, standards-Keeps, pre_commit-Keeps, layout-Keeps,
          commands-Keeps,
        )
        depth 12

  services-Keeps : Keeps (service_checks env args)
  unfolding service_checks
  services-Keeps =
      search
        (
          keep_rules, backend-Keeps, control_tower-Keeps, cloudtrail-Keeps, config-Keeps,
          guardduty-Keeps, hub-Keeps, finops-Keeps,
        )
        depth 14

  units-Keeps : (root_id : Json F) → Keeps (units env args root_id)
  unfolding units
  units-Keeps root_id = search (keep_rules, ous-Keeps)

  all_policies-Keeps :
      (root_id : Json F) (ou_map : Fields F) → Keeps (policies env args root_id ou_map)
  unfolding policies
  all_policies-Keeps root_id ou_map = search (keep_rules, scps-Keeps)

  -- What follows the check of the identity.
  pub after_identity-Keeps : Keeps (after_identity env args)
  unfolding after_identity
  after_identity-Keeps =
      search (keep_rules, organization-Keeps, units-Keeps, services-Keeps, all_policies-Keeps) depth
        12

  pub aws-Keeps : Keeps (aws_checks env args)
  unfolding aws_checks
  aws-Keeps = search (keep_rules, identity-Keeps, after_identity-Keeps)
