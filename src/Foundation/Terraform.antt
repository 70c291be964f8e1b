-- ===== src/Foundation/Terraform.antt =====
-- The local checks E02 of validate_foundation.py: the layout, the modules and the commands.
use infra_lab.Base.{
  String, true, false, not, some, List, [], ◌∷◌, if◌then◌else◌, is_empty, keep_if, Result, ok, err,
  index_error, Exec,
}
use infra_lab.Base.Stateful.{lift, ◌>>=◌, ◌>>◌}
use infra_lab.Base.Text.{◌<>◌, join, split, is_blank}
use infra_lab.Trader.Store.{splitlines}
use infra_lab.Foundation.Suite.{
  Env, Suite, Done, fail, warn, is_zero, or_text, add, add_either, for_each, run,
}
use infra_lab.Foundation.Repo.{missing_text, add_path}

abbrev pub checkov_candidates : List String
checkov_candidates = ".checkov.yml" ∷ ".checkov.yaml" ∷ []

abbrev pub terraform_docs_candidates : List String
terraform_docs_candidates = ".terraform-docs.yml" ∷ ".terraform-docs.yaml" ∷ []

abbrev pub tf_roots : List String
tf_roots = "infra/mgmt/backend" ∷ "infra/mgmt/org" ∷ "infra/live/shared" ∷ []

abbrev pub live_roots_present : List String
live_roots_present = "shared" ∷ []

abbrev pub modules_expected : List String
modules_expected =
    "ec2_instance" ∷ "iam_instance_profile" ∷ "iam_policy" ∷ "iam_role" ∷ "iam_role_oidc"
    ∷ "kms_key" ∷ "s3_secure_bucket" ∷ "security_group" ∷ "vpc_endpoint" ∷ []

abbrev pub module_required_files : List String
module_required_files = "main.tf" ∷ "variables.tf" ∷ "outputs.tf" ∷ "README.md" ∷ "versions.tf" ∷ []

-- `path.replace("/", ".")`
unfoldable pub dotted : String → String
unfolding split join
dotted path = join "." (split b'/' path)

-- `lines[0]`
abbrev first_of : List String → Result String
first_of [] = err index_error
first_of (line ∷ lines) = ok line

-- `text.splitlines()[0]`
unfoldable pub first_line : String → Result String
unfolding splitlines
first_line text = first_of (splitlines text)

module _ {F : Type 0} (env : Env F) where
  unfoldable pub check_live : String → Exec Suite (Unit {0})
  check_live live_dir =
      add_either ("e02.layout.live." <> live_dir) (env.exists ("infra/live/" <> live_dir))
        ("infra/live/" <> (live_dir <> " present")) ("infra/live/" <> (live_dir <> " missing")) fail

  unfoldable pub check_module : String → Exec Suite (Unit {0})
  check_module module_name =
      let missing =
        keep_if (λ f. not (env.exists ("infra/modules/" <> (module_name <> ("/" <> f)))))
          module_required_files in
      add_either ("e02.module." <> module_name) (is_empty missing) "module interface complete"
        (missing_text missing) fail

  unfoldable pub check_tf_root : String → Exec Suite (Unit {0})
  unfolding dotted
  check_tf_root tf_root =
      add_either ("e02.tf_root." <> dotted tf_root) (env.is_dir tf_root) (tf_root <> " present")
        (tf_root <> " missing") fail

  unfoldable pub check_terraform_layout : Exec Suite (Unit {0})
  unfolding check_live check_module check_tf_root add_path for_each
  check_terraform_layout =
      for_each live_roots_present check_live
      >> add_either "e02.layout.modules_root" (env.is_dir "infra/modules") "infra/modules present"
          "infra/modules missing" fail
      >> for_each modules_expected check_module
      >> add_either "e02.hygiene.tflint_config" (env.exists ".tflint.hcl") ".tflint.hcl present"
          ".tflint.hcl not found" fail
      >> add_path env "e02.hygiene.checkov_config" checkov_candidates ".checkov.yml present"
          ".checkov.yml not found" fail
      >> add_path env "e02.hygiene.terraform_docs_config" terraform_docs_candidates
          "terraform-docs config present" "terraform-docs config not found" warn
      >> for_each tf_roots check_tf_root

  -- A result for a command, with the first line of its errors where it failed.
  unfoldable pub add_validate : String → Done → Exec Suite (Unit {0})
  unfolding first_line
  add_validate label done =
      if is_zero done.code
      then add label true "terraform validate passed" fail
      else lift (first_line (or_text done.problem "validate failed")) >>= λ line.
          add label false line fail

  -- After `terraform init`.
  unfoldable pub after_init : String → String → Done → Exec Suite (Unit {0})
  unfolding first_line add_validate run
  after_init tf_root label done =
      if not (is_zero done.code)
      then lift (if is_blank done.problem then ok "init failed" else first_line done.problem)
        >>= (λ line. add label false ("terraform init failed: " <> line) fail)
      else run env ("terraform" ∷ "validate" ∷ "-no-color" ∷ []) (some tf_root)
        >>= add_validate label

  unfoldable pub validate_root : String → Exec Suite (Unit {0})
  unfolding after_init dotted run
  validate_root tf_root =
      let label = "e02.local.terraform_validate." <> dotted tf_root in
      if not (env.is_dir tf_root)
      then add label false (tf_root <> " directory not found") fail
      else run env ("terraform" ∷ "init" ∷ "-backend=false" ∷ "-input=false" ∷ "-no-color" ∷ [])
          (some tf_root)
        >>= after_init tf_root label

  unfoldable pub check_local_validation_commands : Exec Suite (Unit {0})
  unfolding run validate_root for_each
  check_local_validation_commands = do
    fmt ← run env ("terraform" ∷ "fmt" ∷ "-check" ∷ "-recursive" ∷ []) (some "infra")
    add_either "e02.local.terraform_fmt" (is_zero fmt.code) "terraform fmt -check passed"
        (or_text fmt.problem "terraform fmt check failed") fail
    for_each tf_roots validate_root
    hooks ← run env ("pre-commit" ∷ "run" ∷ "--all-files" ∷ []) (some ".")
    add_either "e02.local.pre_commit_all_files" (is_zero hooks.code)
        "pre-commit run --all-files passed" (or_text hooks.problem "pre-commit failed") warn
