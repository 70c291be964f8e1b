-- ===== src/Foundation/Main.antt =====
-- `print_summary` and `main` of validate_foundation.py, without what they print.
use infra_lab.Base.{
  ℕ, suc, ◌-◌, String, Bool, not, List, [], ◌∷◌, if◌then◌else◌, length, Result, ok, err,
  value_error, ◌==◌, Exec,
}
use infra_lab.Base.Stateful.{pure, lift, gets, ◌>>=◌, ◌>>◌}
use infra_lab.Base.Number.{Number, truthy}
use infra_lab.Base.Json.{Json, Fields, end}
use infra_lab.Base.{some}
use infra_lab.Foundation.Suite.{Env, Suite, CheckResult, Severity, fail, warn}
use infra_lab.Foundation.Repo.{
  check_tools, check_repo_structure, check_github_standards, check_pre_commit,
}
use infra_lab.Foundation.Terraform.{check_terraform_layout, check_local_validation_commands}
use infra_lab.Foundation.Backend.{check_state_backend, check_control_tower, check_config_aggregator}
use infra_lab.Foundation.Org.{check_aws_identity, check_organization, check_ous, check_scps}
use infra_lab.Foundation.Services.{
  check_cloudtrail, check_guardduty, check_security_hub, check_budgets_and_anomalies,
}

-- The options of the command line that are used.
pub record Args : Type 0 where
  pub profile : String
  pub primary_region : String
  pub replica_region : String
  pub mgmt_account : String
  pub guardduty_admin_account : String
  pub securityhub_admin_account : String
  pub securityhub_profile : String
  pub state_bucket : String
  pub lock_table : String
  pub skip_local : Bool
  pub skip_aws : Bool

-- The statuses that are printed.
pub data Status : Type 0 where
  pass warned broken : Status

abbrev pub status_by : Severity → Status
status_by warn = warned
status_by fail = broken

abbrev pub status_of : CheckResult → Status
status_of r = if r.passed then pass else status_by r.severity

-- The four numbers of the summary.
pub record Summary : Type 0 where
  pub total : ℕ
  pub passes : ℕ
  pub warnings : ℕ
  pub failures : ℕ

-- One round of the loop: the warnings and the failures so far.
unfoldable pub count_status : Status → ℕ × ℕ → ℕ × ℕ
count_status pass counts = counts
count_status warned (warnings, failures) = (suc warnings, failures)
count_status broken (warnings, failures) = (warnings, suc failures)

unfoldable pub tally : List CheckResult → ℕ × ℕ → ℕ × ℕ
unfolding count_status
tally [] counts = counts
tally (r ∷ rs) counts = tally rs (count_status (status_of r) counts)

abbrev pub summary_of : ℕ → ℕ × ℕ → Summary
summary_of total (warnings, failures) = record {
  total = total;
  passes = total - failures - warnings;
  warnings = warnings;
  failures = failures;
}

-- The summary of the results; `max` of no names raises a ValueError.
unfoldable pub summarize : List CheckResult → Result Summary
unfolding tally
summarize [] = err value_error
summarize (r ∷ rs) = ok (summary_of (length (r ∷ rs)) (tally (r ∷ rs) (0, 0)))

abbrev pub exit_code : Summary → ℕ
exit_code summary = if summary.failures == 0 then 0 else 1

-- `print_summary`
unfoldable pub print_summary : List CheckResult → Result ℕ
unfolding summarize
print_summary results = elim (summarize results) [ err e ↦ err e | ok s ↦ ok (exit_code s) ]

module _ {F : Type 0} ⦃number : Number F⦄ (env : Env F) (args : Args) where
  -- The local checks but for the first one.
  unfoldable pub after_tools : Exec Suite (Unit {0})
  after_tools =
      check_repo_structure env
      >> check_github_standards env
      >> check_pre_commit env
      >> check_terraform_layout env
      >> check_local_validation_commands env

  unfoldable pub local_checks : Exec Suite (Unit {0})
  unfolding after_tools
  local_checks = check_tools env >> after_tools

  -- The units and the policies are looked at only below a root that was found.
  unfoldable pub units : Json F → Exec Suite (Fields F)
  units root_id = if truthy (some root_id) then check_ous env args.profile root_id else pure end

  unfoldable pub policies : Json F → Fields F → Exec Suite (Unit {0})
  policies root_id ou_map =
      if truthy (some root_id) then check_scps env args.profile root_id ou_map else pure tt

  unfoldable pub service_checks : Exec Suite (Unit {0})
  service_checks =
      check_state_backend env args.profile args.state_bucket args.lock_table args.primary_region
      >> check_control_tower env args.profile args.primary_region
      >> check_cloudtrail env args.profile args.primary_region
      >> check_config_aggregator env args.profile args.primary_region
      >> check_guardduty env args.profile args.guardduty_admin_account args.primary_region
          args.replica_region
      >> check_security_hub env args.profile args.securityhub_profile args.securityhub_admin_account
          args.primary_region
      >> check_budgets_and_anomalies env args.profile args.mgmt_account args.primary_region

  -- What follows the check of the identity.
  unfoldable pub after_identity : Exec Suite (Unit {0})
  unfolding units policies service_checks
  after_identity = do
    root_id ← check_organization env args.profile
    ou_map ← units root_id
    service_checks
    policies root_id ou_map

  unfoldable pub aws_checks : Exec Suite (Unit {0})
  unfolding after_identity
  aws_checks = check_aws_identity env args.profile args.mgmt_account >> after_identity

  unfoldable pub all_checks : Exec Suite (Unit {0})
  unfolding local_checks aws_checks
  all_checks =
      (if args.skip_local then pure tt else local_checks)
      >> (if args.skip_aws then pure tt else aws_checks)

  unfoldable pub report : Exec Suite ℕ
  unfolding print_summary
  report = do results ← gets (λ s. s.results); lift (print_summary results)

  -- `main`: the code that the program exits with. The root of the repository is the path ".".
  unfoldable pub main : Exec Suite ℕ
  unfolding all_checks report
  main = if not (env.exists ".") then pure 2 else all_checks >> report
