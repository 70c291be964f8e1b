-- ===== src/Foundation/Refused.antt =====
-- Checks of validate_foundation.py that a program which exits with 0 has passed.
use infra_lab.Base.{
  ℕ, String, ◌≡◌, ◌⊎◌, inl, inr, refl, ap, ◌∙◌, Bool, true, false, not, none, List, [], ◌∷◌,
  if◌then◌else◌, ◌||◌, any, is_empty, keep_if, arith, Bool-cases, ok, Exec,
}
use infra_lab.Base.Stateful.{pure, bind-ends, ◌>>=◌}
use infra_lab.Base.Number.{Number}
use infra_lab.Base.Json.{Fields, null, bool, num, str, arr, obj}
use infra_lab.Foundation.Suite.{
  Env, Suite, AwsReply, answered, failed, fail, aws_json, get_or, is_text, on_reply,
}
use infra_lab.Foundation.Repo.{required_tools, check_tools}
use infra_lab.Foundation.Org.{check_account, check_aws_identity}
use infra_lab.Foundation.Main.{Args, local_checks, after_identity, aws_checks, all_checks, main}
use infra_lab.Foundation.Keeps.{
  has_failure, Keeps, Keeps-if, Keeps-pure, add_records, either_records,
}
use infra_lab.Foundation.Kept.Services.{after_tools-Keeps, after_identity-Keeps, aws-Keeps}
use infra_lab.Foundation.Exit.{one_if, main-returned}

-- Whether `m` returns or raises, it leaves a failure.
record Fails {A : Type 0} (m : Exec Suite A) : Type 0 where
  at : (s : Suite) → has_failure (m s).1.results ≡ true

Fails-first :
    {A B : Type 0} (m : Exec Suite A) (f : A → Exec Suite B)
    → Fails m
    → ((a : A) → Keeps (f a))
    → Fails (m >>= f)
Fails-first m f q r = record {
  at = λ s.
      bind-ends (λ x. has_failure x.1.results ≡ true) m f s (λ e raised. q.at s)
        (λ a returned. (r a).at (m s).1 (q.at s));
}

Fails-if_false :
    {A : Type 0} (b : Bool) (m n : Exec Suite A) → b ≡ false → Fails n → Fails (if b then m else n)
Fails-if_false true m n h q = cc
Fails-if_false false m n h q = q

-- What holds of the end of a block that returned.
after_return :
    {A B : Type 0} {b : B} (m : Exec Suite A) (f : A → Exec Suite B) (s : Suite)
    (P : Suite → Type 0)
    → ((a : A) → (m s).0 ≡ ok a → (f a (m s).1).0 ≡ ok b → P (f a (m s).1).1)
    → ((m >>= f) s).0 ≡ ok b
    → P ((m >>= f) s).1
after_return {b} m f s P after =
    bind-ends (λ x. x.0 ≡ ok b → P x.1) m f s (λ e raised h. cc)
      (λ a returned h. after a returned h)

some_kept :
    (p : String → Bool) (ts : List String) → any p ts ≡ true → is_empty (keep_if p ts) ≡ false
some_kept p [] h = cc
some_kept p (t ∷ ts) h = go (p t) h (some_kept p ts)
  where
    go :
        (b : Bool)
        → (b || any p ts) ≡ true
        → (any p ts ≡ true → is_empty (keep_if p ts) ≡ false)
        → is_empty (if b then t ∷ keep_if p ts else keep_if p ts) ≡ false
    go true h more = refl
    go false h more = more h

module _ {F : Type 0} ⦃number : Number F⦄ (env : Env F) (args : Args) where
  abbrev lacks : String → Bool
  lacks tool = not (env.which tool)

  tools-Fails : any lacks required_tools ≡ true → Fails (check_tools env)
  unfolding check_tools
  tools-Fails missing = record {
    at = λ s.
        either_records "local.tools.installed" "all required tools on PATH" _
          (is_empty (keep_if lacks required_tools)) s (some_kept lacks required_tools missing);
  }

  rest-Keeps : Keeps (if args.skip_aws then pure tt else aws_checks env args)
  rest-Keeps = Keeps-if args.skip_aws _ _ (Keeps-pure tt) (aws-Keeps env args)

  all_checks-Fails :
      args.skip_local ≡ false → any lacks required_tools ≡ true → Fails (all_checks env args)
  unfolding all_checks local_checks
  all_checks-Fails wanted missing =
      Fails-first _ _
        (Fails-if_false args.skip_local _ _ wanted
          (Fails-first _ _ (tools-Fails missing) (λ _. after_tools-Keeps env args)))
        (λ _. rest-Keeps)

  -- Where the root of the repository is there, the local checks are asked for and one of the required
  -- tools is not on the PATH: a run that ends with an exit code ends with 1, whatever else the checks
  -- find.
  pub main-tools :
      (s : Suite) (code : ℕ)
      → env.exists "." ≡ true
      → args.skip_local ≡ false
      → any (λ tool. not (env.which tool)) required_tools ≡ true
      → (main env args s).0 ≡ ok code
      → code ≡ 1
  main-tools s code there wanted missing h =
      let (done, same_end, coded) = main-returned env args s code there h in
      rw (coded, (all_checks-Fails wanted missing).at s) refl

  -- The identity command was answered with an object that has the expected account.
  pub IsConfirmed : Type 0
  IsConfirmed =
      (t : Suite) × (d : Fields F) × ((aws_json env args.profile
          ("sts" ∷ "get-caller-identity" ∷ []) none t).0
        ≡ ok (answered (obj d)))
      × (is_text args.mgmt_account (get_or "Account" null d) ≡ true)

  account_confirmed :
      (d : Fields F) (t : Suite)
      → (has_failure (check_account env args.profile args.mgmt_account d t).1.results ≡ true)
        ⊎ (is_text args.mgmt_account (get_or "Account" null d) ≡ true)
  unfolding check_account
  account_confirmed d t = elim (Bool-cases (is_text args.mgmt_account (get_or "Account" null d))) [
    | inl same ↦ inr same
    | inr apart ↦ inl (either_records "e03.aws.identity" _ _ _ t apart)
  ]

  reply_confirmed :
      (s t : Suite) (reply : AwsReply F)
      → (aws_json env args.profile ("sts" ∷ "get-caller-identity" ∷ []) none s).0 ≡ ok reply
      → (on_reply "e03.aws.identity" fail
          (check_account env args.profile args.mgmt_account)
          reply
          t).0
        ≡ ok tt
      → (has_failure
            (on_reply "e03.aws.identity" fail
              (check_account env args.profile args.mgmt_account)
              reply
              t).1.results
          ≡ true)
        ⊎ IsConfirmed
  unfolding on_reply IsConfirmed
  reply_confirmed s t (failed problem) asked h = inl (add_records "e03.aws.identity" problem t)
  reply_confirmed s t (answered (obj d)) asked h = elim (account_confirmed d t) [
    | inl failing ↦ inl failing
    | inr same ↦ inr (s, d, asked, same)
  ]
  reply_confirmed s t (answered null) asked h = cc
  reply_confirmed s t (answered (bool b)) asked h = cc
  reply_confirmed s t (answered (num x)) asked h = cc
  reply_confirmed s t (answered (str x)) asked h = cc
  reply_confirmed s t (answered (arr vs)) asked h = cc

  identity_confirmed :
      (s : Suite)
      → (check_aws_identity env args.profile args.mgmt_account s).0 ≡ ok tt
      → (has_failure (check_aws_identity env args.profile args.mgmt_account s).1.results ≡ true)
        ⊎ IsConfirmed
  unfolding check_aws_identity
  identity_confirmed s h =
      after_return (aws_json env args.profile ("sts" ∷ "get-caller-identity" ∷ []) none)
        (on_reply "e03.aws.identity" fail (check_account env args.profile args.mgmt_account)) s
        (λ t. (has_failure t.results ≡ true) ⊎ IsConfirmed)
        (λ reply asked went. reply_confirmed s _ reply asked went) h

  aws_confirmed :
      (s : Suite)
      → (aws_checks env args s).0 ≡ ok tt
      → (has_failure (aws_checks env args s).1.results ≡ true) ⊎ IsConfirmed
  unfolding aws_checks
  aws_confirmed s h =
      after_return (check_aws_identity env args.profile args.mgmt_account)
        (λ _. after_identity env args) s (λ t. (has_failure t.results ≡ true) ⊎ IsConfirmed)
        (λ a returned went. elim (identity_confirmed s returned) [
          | inl failing ↦ inl (
              (after_identity-Keeps env args).at
                (check_aws_identity env args.profile args.mgmt_account s).1 failing)
          | inr confirmed ↦ inr confirmed
        ])
        h

  asked_confirmed :
      (b : Bool) (s : Suite)
      → b ≡ false
      → ((if b then pure tt else aws_checks env args) s).0 ≡ ok tt
      → (has_failure ((if b then pure tt else aws_checks env args) s).1.results ≡ true)
        ⊎ IsConfirmed
  asked_confirmed true s h went = cc
  asked_confirmed false s h went = aws_confirmed s went

  all_confirmed :
      (s : Suite)
      → args.skip_aws ≡ false
      → (all_checks env args s).0 ≡ ok tt
      → (has_failure (all_checks env args s).1.results ≡ true) ⊎ IsConfirmed
  unfolding all_checks
  all_confirmed s wanted h =
      after_return (if args.skip_local then pure tt else local_checks env args)
        (λ _. if args.skip_aws then pure tt else aws_checks env args) s
        (λ t. (has_failure t.results ≡ true) ⊎ IsConfirmed)
        (λ a returned went. asked_confirmed args.skip_aws _ wanted went) h

  -- Where the root of the repository is there and the checks of AWS are asked for: a run that ends with
  -- the exit code 0 was answered, to the identity command, with the expected account.
  pub main-IsConfirmed :
      (s : Suite)
      → env.exists "." ≡ true
      → args.skip_aws ≡ false
      → (main env args s).0 ≡ ok 0
      → IsConfirmed
  main-IsConfirmed s there wanted h =
      let (done, same_end, coded) = main-returned env args s 0 there h in
      elim (all_confirmed s wanted done) [
        | inl failing ↦
            let wrong : ◌≡◌ {A = ℕ} 0 1 = coded ∙ ap one_if failing in absurd (omega arith)
        | inr confirmed ↦ confirmed
      ]
