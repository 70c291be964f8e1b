-- ===== src/Foundation/Repo.antt =====
-- The checks E01 of validate_foundation.py: tools, repository, GitHub and pre-commit.
use infra_lab.Base.{
  String, Bool, true, false, not, Option, none, some, List, [], ◌∷◌, if◌then◌else◌, is_empty,
  keep_if, Result, ok, err, Exec,
}
use infra_lab.Base.Stateful.{lift, ◌>>=◌, ◌>>◌}
use infra_lab.Base.Text.{◌<>◌, lower, join, has_text}
use infra_lab.Foundation.Suite.{
  Env, Suite, Severity, fail, warn, add, add_either, path_exists, first_existing, workflow_files,
  any_workflow_contains,
}

abbrev pub required_repo_dirs : List String
required_repo_dirs = "infra" ∷ "app" ∷ "docs" ∷ "scripts" ∷ []

abbrev pub required_repo_files : List String
required_repo_files = "LICENSE" ∷ "SECURITY.md" ∷ "CONTRIBUTING.md" ∷ "README.md" ∷ []

abbrev pub codeowners_candidates : List String
codeowners_candidates = ".github/CODEOWNERS" ∷ "CODEOWNERS" ∷ "docs/CODEOWNERS" ∷ []

abbrev pub pr_template_candidates : List String
pr_template_candidates =
    ".github/pull_request_template.md" ∷ ".github/PULL_REQUEST_TEMPLATE.md"
    ∷ ".github/PULL_REQUEST_TEMPLATE/pull_request_template.md" ∷ []

abbrev pub issue_template_dirs : List String
issue_template_dirs = ".github/ISSUE_TEMPLATE" ∷ ".github/issue_template" ∷ []

abbrev pub dependabot_candidates : List String
dependabot_candidates = ".github/dependabot.yml" ∷ ".github/dependabot.yaml" ∷ []

abbrev pub changelog_candidates : List String
changelog_candidates =
    "CHANGELOG.md" ∷ ".github/release-drafter.yml" ∷ ".github/release-drafter.yaml" ∷ []

abbrev pub adr_candidates : List String
adr_candidates = "docs/adr" ∷ "docs/ADR" ∷ []

abbrev pub docs_site_candidates : List String
docs_site_candidates = "mkdocs.yml" ∷ "mkdocs.yaml" ∷ "docs/index.md" ∷ []

abbrev pub required_tools : List String
required_tools = "git" ∷ "gh" ∷ "aws" ∷ "terraform" ∷ "tflint" ∷ "pre-commit" ∷ "checkov" ∷ []

abbrev pub precommit_required_tokens : List String
precommit_required_tokens = "terraform_fmt" ∷ "tflint" ∷ "checkov" ∷ "gitleaks" ∷ []

abbrev pub security_scan_token_groups : List (List String)
security_scan_token_groups = ("checkov" ∷ []) ∷ ("tflint" ∷ []) ∷ ("gitleaks" ∷ []) ∷ []

abbrev pub missing_text : List String → String
missing_text missing = "missing: " <> join ", " missing

module _ {F : Type 0} (env : Env F) where
  -- A result that says whether one of the paths exists.
  unfoldable pub add_path :
      String → List String → String → String → Severity → Exec Suite (Unit {0})
  unfolding path_exists
  add_path name candidates good bad severity =
      add_either name (path_exists env candidates) good bad severity

  unfoldable pub check_tools : Exec Suite (Unit {0})
  check_tools =
      let missing = keep_if (λ t. not (env.which t)) required_tools in
      add_either "local.tools.installed" (is_empty missing) "all required tools on PATH"
        (missing_text missing) fail

  -- What is said of the CODEOWNERS file that was found, if any.
  unfoldable pub check_codeowners : Option String → Exec Suite (Unit {0})
  unfolding has_text
  check_codeowners none = add "e01.repo.codeowners" false "CODEOWNERS not found" fail
  check_codeowners (some path) = do
    text ← lift (env.read_text path)
    add_either "e01.repo.codeowners" (has_text text "/infra")
        "CODEOWNERS present and includes /infra rule" "CODEOWNERS found but /infra rule missing"
        fail

  unfoldable pub check_repo_structure : Exec Suite (Unit {0})
  unfolding check_codeowners first_existing
  check_repo_structure =
      let missing_dirs = keep_if (λ d. not (env.is_dir d)) required_repo_dirs in
      let missing_files = keep_if (λ f. not (env.exists f)) required_repo_files in
      add_either "e01.repo.directories" (is_empty missing_dirs) "required directories present"
        (missing_text missing_dirs) fail
      >> add_either "e01.repo.core_files" (is_empty missing_files)
          "LICENSE, SECURITY.md, CONTRIBUTING.md, README.md present" (missing_text missing_files)
          fail
      >> check_codeowners (first_existing env codeowners_candidates)

  -- `any` over the groups, and the `or` of three tests: the first that holds ends it.
  unfoldable pub any_group : List (List String) → Result Bool
  unfolding any_workflow_contains
  any_group [] = ok false
  any_group (tokens ∷ groups) = elim (any_workflow_contains env tokens) [
    | err e ↦ err e
    | ok found ↦ if found then ok true else any_group groups
  ]

  unfoldable pub check_templates : Exec Suite (Unit {0})
  unfolding add_path
  check_templates =
      add_path "e01.github.issue_templates" issue_template_dirs
        ".github/ISSUE_TEMPLATE directory present" ".github/ISSUE_TEMPLATE not found" fail
      >> add_path "e01.github.pr_template" pr_template_candidates "PR template present"
          "PR template not found" fail
      >> add_path "e01.github.dependabot" dependabot_candidates "Dependabot config present"
          "Dependabot config not found" fail
      >> add_path "e01.github.changelog_or_release_drafter" changelog_candidates
          "changelog/release drafter present" "changelog automation not found" warn
      >> add_path "e01.docs.adr_log" adr_candidates "ADR directory present"
          "docs/adr not found (not yet created)" warn
      >> add_path "e01.docs.site_scaffold" docs_site_candidates "docs site scaffold present"
          "docs site scaffold not found (not yet created)" warn

  unfoldable pub check_workflows : Exec Suite (Unit {0})
  unfolding any_group workflow_files
  check_workflows = do
    add_either "e01.github.workflows.exist" (not (is_empty (workflow_files env)))
        "workflow files found in .github/workflows" ".github/workflows missing or empty" fail
    scan_ok ← lift (any_group security_scan_token_groups)
    add_either "e01.github.security_scans" scan_ok "security scanning signals found in workflows"
        "no IaC/security scan tokens found in workflows" fail
    release_ok ← lift (any_group (("semver" ∷ []) ∷ ("release" ∷ []) ∷ ("tag" ∷ []) ∷ []))
    add_either "e01.github.semver_signal" release_ok "semver/release signal found in workflows"
        "no semver/release signal found" warn

  unfoldable pub check_github_standards : Exec Suite (Unit {0})
  unfolding check_templates check_workflows
  check_github_standards = check_templates >> check_workflows

  unfoldable pub check_hooks : String → Exec Suite (Unit {0})
  unfolding has_text lower
  check_hooks text =
      let missing = keep_if (λ t. not (has_text (lower text) t)) precommit_required_tokens in
      add_either "e01.precommit.hooks" (is_empty missing)
        "pre-commit includes terraform_fmt, tflint, checkov, gitleaks"
        ("missing hook tokens: " <> join ", " missing) fail

  unfoldable pub check_pre_commit : Exec Suite (Unit {0})
  unfolding check_hooks
  check_pre_commit =
      if not (env.exists ".pre-commit-config.yaml")
      then add "e01.precommit.config" false ".pre-commit-config.yaml not found" fail
      else lift (env.read_text ".pre-commit-config.yaml") >>= check_hooks
