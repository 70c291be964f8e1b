-- ===== src/Foundation/Kept.antt =====
-- No check of validate_foundation.py takes a recorded failure back: here those of the repository and
-- of the backend, in the child those of the organization and the services.
pub mod Services
use infra_lab.Base.{String, Option, none, some, List, [], ◌∷◌, Bool, Exec}
use infra_lab.Base.Number.{Number}
use infra_lab.Base.Json.{Json, Fields}
use infra_lab.Foundation.Suite.{Env, Suite, Done, Severity, AwsReply, answered, failed}
use infra_lab.Foundation.Repo.{
  add_path, check_codeowners, check_repo_structure, check_templates, check_workflows,
  check_github_standards, check_hooks, check_pre_commit,
}
use infra_lab.Foundation.Terraform.{
  check_live, check_module, check_tf_root, check_terraform_layout, add_validate, after_init,
  validate_root, check_local_validation_commands,
}
use infra_lab.Foundation.Backend.{
  check_encryption, check_versioning, check_public_access, check_replication, check_lock_table,
  check_state_backend, check_landing_zones, check_control_tower, check_org_source,
  check_aggregators, check_config_aggregator,
}
use infra_lab.Foundation.Org.{
  check_account, check_aws_identity, check_principals, check_roots, check_feature_set,
  after_describe, check_organization, after_ous, check_ous, check_attached, check_target,
  check_policies, check_scps,
}
use infra_lab.Foundation.Services.{
  add_set, check_logging, check_first_trail, check_trails, check_cloudtrail, check_gd_admin,
  check_frequency, check_detector, check_detector_ids, check_region, check_guardduty,
  check_sh_admin, check_standards, check_finding_aggregators, check_security_hub, check_budgets,
  check_budgets_and_anomalies,
}
use infra_lab.Foundation.Main.{
  Args, after_tools, units, policies, service_checks, after_identity, aws_checks, all_checks,
}
use infra_lab.Foundation.Keeps.{Keeps, keep_rules, run-Keeps, aws_json-Keeps, on_reply-Keeps}

pub ruleset reply_rules = (keep_rules, aws_json-Keeps, on_reply-Keeps)

module _ {F : Type 0} (env : Env F) where
  add_path-Keeps :
      (name : String) (candidates : List String) (good bad : String) (severity : Severity)
      → Keeps (add_path env name candidates good bad severity)
  unfolding add_path
  add_path-Keeps name candidates good bad severity = search keep_rules

  codeowners-Keeps : (found : Option String) → Keeps (check_codeowners env found)
  unfolding check_codeowners
  codeowners-Keeps none = search keep_rules
  codeowners-Keeps (some path) = search keep_rules

  pub structure-Keeps : Keeps (check_repo_structure env)
  unfolding check_repo_structure
  structure-Keeps = search (keep_rules, codeowners-Keeps) depth 8

  templates-Keeps : Keeps (check_templates env)
  unfolding check_templates
  templates-Keeps = search (keep_rules, add_path-Keeps) depth 12

  workflows-Keeps : Keeps (check_workflows env)
  unfolding check_workflows
  workflows-Keeps = search keep_rules depth 12

  pub standards-Keeps : Keeps (check_github_standards env)
  unfolding check_github_standards
  standards-Keeps = search (keep_rules, templates-Keeps, workflows-Keeps)

  hooks-Keeps : (text : String) → Keeps (check_hooks env text)
  unfolding check_hooks
  hooks-Keeps text = search keep_rules

  pub pre_commit-Keeps : Keeps (check_pre_commit env)
  unfolding check_pre_commit
  pre_commit-Keeps = search (keep_rules, hooks-Keeps)

  live-Keeps : (dir : String) → Keeps (check_live env dir)
  unfolding check_live
  live-Keeps dir = search keep_rules

  module-Keeps : (name : String) → Keeps (check_module env name)
  unfolding check_module
  module-Keeps name = search keep_rules

  tf_root-Keeps : (root : String) → Keeps (check_tf_root env root)
  unfolding check_tf_root
  tf_root-Keeps root = search keep_rules

  pub layout-Keeps : Keeps (check_terraform_layout env)
  unfolding check_terraform_layout
  layout-Keeps =
      search (keep_rules, live-Keeps, module-Keeps, tf_root-Keeps, add_path-Keeps) depth 14

  validate-Keeps : (label : String) (done : Done) → Keeps (add_validate env label done)
  unfolding add_validate
  validate-Keeps label done = search keep_rules

  init-Keeps : (root label : String) (done : Done) → Keeps (after_init env root label done)
  unfolding after_init
  init-Keeps root label done = search (keep_rules, run-Keeps, validate-Keeps) depth 8

  root-Keeps : (root : String) → Keeps (validate_root env root)
  unfolding validate_root
  root-Keeps root = search (keep_rules, run-Keeps, init-Keeps) depth 8

  pub commands-Keeps : Keeps (check_local_validation_commands env)
  unfolding check_local_validation_commands
  commands-Keeps = search (keep_rules, run-Keeps, root-Keeps) depth 12

module _ {F : Type 0} ⦃number : Number F⦄ (env : Env F) where
  encryption-Keeps : (d : Fields F) → Keeps (check_encryption env d)
  unfolding check_encryption
  encryption-Keeps d = search keep_rules

  versioning-Keeps : (d : Fields F) → Keeps (check_versioning env d)
  unfolding check_versioning
  versioning-Keeps d = search keep_rules

  public-Keeps : (d : Fields F) → Keeps (check_public_access env d)
  unfolding check_public_access
  public-Keeps d = search keep_rules

  replication-Keeps : (reply : AwsReply F) → Keeps (check_replication env reply)
  unfolding check_replication
  replication-Keeps (failed problem) = search keep_rules
  replication-Keeps (answered v) = search keep_rules depth 8

  lock_table-Keeps : (table : String) (d : Fields F) → Keeps (check_lock_table env table d)
  unfolding check_lock_table
  lock_table-Keeps table d = search keep_rules depth 10

  pub backend-Keeps :
      (profile bucket table region : String)
      → Keeps (check_state_backend env profile bucket table region)
  unfolding check_state_backend
  backend-Keeps profile bucket table region =
      search
        (
          reply_rules, encryption-Keeps, versioning-Keeps, public-Keeps, replication-Keeps,
          lock_table-Keeps,
        )
        depth 20

  zones-Keeps : (d : Fields F) → Keeps (check_landing_zones env d)
  unfolding check_landing_zones
  zones-Keeps d = search keep_rules

  pub control_tower-Keeps :
      (profile region : String) → Keeps (check_control_tower env profile region)
  unfolding check_control_tower
  control_tower-Keeps profile region = search (reply_rules, zones-Keeps)

  org_source-Keeps : (v : Json F) → Keeps (check_org_source env v)
  unfolding check_org_source
  org_source-Keeps v = search keep_rules depth 8

  aggregators-Keeps : (d : Fields F) → Keeps (check_aggregators env d)
  unfolding check_aggregators
  aggregators-Keeps d = search (keep_rules, org_source-Keeps)

  pub config-Keeps : (profile region : String) → Keeps (check_config_aggregator env profile region)
  unfolding check_config_aggregator
  config-Keeps profile region = search (reply_rules, aggregators-Keeps)
