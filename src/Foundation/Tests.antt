-- ===== src/Foundation/Tests.antt =====
-- Examples for the foundation checks: a repository where all is there, and an organization whose
-- replies are all one object.
use infra_lab.Base.{
  ℕ, ◌≡◌, refl, String, str_eq, Bool, true, false, some, List, [], ◌∷◌, contains, if◌then◌else◌, ok,
  err, value_error,
}
use infra_lab.Base.Int.{pos}
use infra_lab.Base.Fixed.{Fixed, fixed_number}
use infra_lab.Base.Json.{Json, Fields, Items, end, field, bool, str, obj, arr, none_left, item}
use infra_lab.Base.Text.{join, lower}
use infra_lab.Foundation.Suite.{Env, Suite, CheckResult, fail, warn, add, add_either}
use infra_lab.Foundation.Repo.{
  check_tools, check_repo_structure, check_github_standards, check_pre_commit,
}
use infra_lab.Foundation.Terraform.{check_terraform_layout, check_local_validation_commands}
use infra_lab.Foundation.Backend.{check_state_backend, check_control_tower, check_config_aggregator}
use infra_lab.Foundation.Org.{check_aws_identity, check_organization, check_ous, check_scps}
use infra_lab.Foundation.Services.{
  check_cloudtrail, check_guardduty, check_security_hub, check_budgets_and_anomalies,
}
use infra_lab.Foundation.Main.{Args, summarize, main}
use infra_lab.Foundation.Keeps.{has_failure}
use infra_lab.Foundation.Exit.{summarize-counts, main-code}
use infra_lab.Foundation.Refused.{IsConfirmed, main-tools, main-IsConfirmed}

abbrev dict : List (String × Json Fixed) → Fields Fixed
dict [] = end
dict ((k, v) ∷ rest) = field k v (dict rest)

abbrev list : List (Json Fixed) → Items Fixed
list [] = none_left
list (v ∷ vs) = item v (list vs)

-- A list of one object.
abbrev one : List (String × Json Fixed) → Json Fixed
one members = arr (item (obj (dict members)) none_left)

abbrev unit : String → String → Json Fixed
unit name id = obj (dict (("Name", str name) ∷ ("Id", str id) ∷ []))

-- A rule with one member inside another.
abbrev rules : String → String → String → Json Fixed
rules outer inner value =
    obj (dict (("Rules", one ((outer, obj (dict ((inner, str value) ∷ []))) ∷ [])) ∷ []))

-- The reply to all commands, with the status that it has.
abbrev reply : String → Fields Fixed
reply status = dict (
    ("Account", str "1")
    ∷ ("Organization", obj (dict (("FeatureSet", str "ALL") ∷ [])))
    ∷ (
      "EnabledServicePrincipals",
      one (("ServicePrincipal", str "member.org.stacksets.cloudformation.amazonaws.com") ∷ []),
    )
    ∷ ("Roots", one (("Id", str "r-1") ∷ []))
    ∷ (
      "OrganizationalUnits",
      arr (
          list (
            unit "Security" "ou-1"
            ∷ unit "Infrastructure" "ou-2"
            ∷ unit "Workloads" "ou-3"
            ∷ unit "Sandbox" "ou-4"
            ∷ [])),
    )
    ∷ (
      "ServerSideEncryptionConfiguration",
      rules "ApplyServerSideEncryptionByDefault" "SSEAlgorithm" "aws:kms",
    )
    ∷ (
      "ReplicationConfiguration",
      rules "Destination" "Bucket" "arn:aws:s3:::infra-lab-tf-state-replica-551452024305",
    )
    ∷ ("Status", str status)
    ∷ (
      "Table",
      obj (
          dict (
            ("TableName", str "locks")
            ∷ ("SSEDescription", obj (dict (("Status", str "ENABLED") ∷ [])))
            ∷ [])),
    )
    ∷ ("landingZones", one [])
    ∷ (
      "trailList",
      one (
          ("IsOrganizationTrail", bool true)
          ∷ ("IsMultiRegionTrail", bool true)
          ∷ ("LogFileValidationEnabled", bool true)
          ∷ []),
    )
    ∷ ("IsLogging", bool true)
    ∷ ("ConfigurationAggregators", one (("OrganizationAggregationSource", bool true) ∷ []))
    ∷ ("AdminAccounts", one (("AdminAccountId", str "2") ∷ ("AccountId", str "3") ∷ []))
    ∷ ("DetectorIds", arr (item (str "d-1") none_left))
    ∷ ("FindingPublishingFrequency", str "SIX_HOURS")
    ∷ (
      "StandardsSubscriptions",
      one (
          (
            "StandardsArn",
            str "aws-foundational-security-best-practices/cis-aws-foundations-benchmark",
          )
          ∷ []),
    )
    ∷ ("FindingAggregators", one [])
    ∷ ("Budgets", one (("BudgetName", str "b") ∷ []))
    ∷ ("AnomalyMonitors", one [])
    ∷ ("AnomalySubscriptions", one [])
    ∷ ("Policies", one (("Name", str "leave") ∷ ("Id", str "p-1") ∷ []))
    ∷ [])

abbrev not_git : String → Bool
not_git tool = if str_eq tool "git" then false else true

-- All commands succeed; those of GuardDuty are told apart by what they print.
abbrev good : Env Fixed
good = record {
  exists = λ path. true;
  is_dir = λ path. true;
  read_text = λ path. ok "";
  workflow_glob = [];
  which = not_git;
  run = λ before command. ok (record {
    code = pos 0;
    out = if contains command.words "guardduty" then "guardduty" else "other";
    problem = "";
  });
  loads = λ out. some (obj (if str_eq out "guardduty" then reply "ENABLED" else reply "Enabled"));
  show_set = λ vs. "{}";
}

abbrev options : Bool → Bool → Args
options skip_local skip_aws = record {
  profile = "p";
  primary_region = "us-east-1";
  replica_region = "us-west-2";
  mgmt_account = "1";
  guardduty_admin_account = "2";
  securityhub_admin_account = "3";
  securityhub_profile = "audit";
  state_bucket = "state";
  lock_table = "locks";
  skip_local = skip_local;
  skip_aws = skip_aws;
}

abbrev start : Suite
start = record { results = []; commands = [] }

local_run : (main good (options false true) start).0 ≡ ok 1
unfolding main check_tools add_either add check_repo_structure check_github_standards
    check_pre_commit check_terraform_layout check_local_validation_commands
local_run = refl

main-tools_example : ◌≡◌ {A = ℕ} 1 1
main-tools_example = main-tools good (options false true) start 1 refl refl refl local_run

aws_run : (main good (options true false) start).0 ≡ ok 0
unfolding main fixed_number check_aws_identity add_either add check_organization check_ous
    check_state_backend check_control_tower check_cloudtrail check_config_aggregator check_guardduty
    check_security_hub check_budgets_and_anomalies check_scps join lower
aws_run = refl

main-IsConfirmed_example : IsConfirmed good (options true false)
main-IsConfirmed_example = main-IsConfirmed good (options true false) start refl refl aws_run

main-code_example :
    ◌≡◌ {A = ℕ} 0 (if has_failure (main good (options true false) start).1.results then 1 else 0)
main-code_example = main-code good (options true false) start 0 refl aws_run

raises_on_no_checks : (main good (options true true) start).0 ≡ err value_error
unfolding main summarize
raises_on_no_checks = refl

abbrev warning : CheckResult
warning = record { name = "a"; passed = false; detail = ""; severity = warn }

abbrev failure : CheckResult
failure = record { name = "b"; passed = false; detail = ""; severity = fail }

summarize-counts_example :
    summarize (warning ∷ failure ∷ failure ∷ [])
    ≡ ok (record { total = 3; passes = 0; warnings = 1; failures = 2 })
summarize-counts_example = summarize-counts warning (failure ∷ failure ∷ [])
