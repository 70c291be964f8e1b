-- ===== src/Foundation/Exit.antt =====
-- The exit code of validate_foundation.py: what it says of the recorded results.
use infra_lab.Base.{
  ℕ, ◌+◌, ◌-◌, ◌==◌, ◌≡◌, refl, sym, ap, ◌∙◌, arith, Bool, true, false, not, ◌||◌, List, [], ◌∷◌,
  if◌then◌else◌, length, count_if, Result, ok, err, ok-injective, Exec,
}
use infra_lab.Base.Stateful.{pure, bind-returns, ◌>>◌}
use infra_lab.Base.Number.{Number}
use infra_lab.Foundation.Suite.{Env, Suite, CheckResult, Severity, fail, warn}
use infra_lab.Foundation.Main.{
  Args, pass, Summary, summary_of, count_status, status_by, tally, summarize, exit_code,
  print_summary, all_checks, report, main,
}
use infra_lab.Foundation.Keeps.{is_failure, has_failure}

abbrev pub is_warning : CheckResult → Bool
is_warning r = elim r.severity [ fail ↦ false | warn ↦ not r.passed ]

abbrev pub is_pass : CheckResult → Bool
is_pass r = r.passed

abbrev pub one_if : Bool → ℕ
one_if b = if b then 1 else 0

status_counted :
    (p : Bool) (v : Severity) (w f : ℕ)
    → count_status (if p then pass else status_by v) (w, f) ≡ (
      w + one_if (elim v [ fail ↦ false | warn ↦ not p ]),
      f + one_if (elim v [ fail ↦ not p | warn ↦ false ]),
    )
unfolding count_status
status_counted true fail w f = ground arith
status_counted true warn w f = ground arith
status_counted false fail w f = ground arith
status_counted false warn w f = ground arith

tally-counts :
    (rs : List CheckResult) (w f : ℕ)
    → tally rs (w, f) ≡ (w + count_if is_warning rs, f + count_if is_failure rs)
unfolding tally
tally-counts [] w f = ground arith
tally-counts (r ∷ rs) w f =
    ap (tally rs) (status_counted r.passed r.severity w f)
    ∙ (tally-counts rs (w + one_if (is_warning r)) (f + one_if (is_failure r)) ∙ ground arith)

one_counted :
    (p : Bool) (v : Severity)
    → one_if p
        + one_if (elim v [ fail ↦ false | warn ↦ not p ])
        + one_if (elim v [ fail ↦ not p | warn ↦ false ])
      ≡ 1
one_counted true fail = refl
one_counted true warn = refl
one_counted false fail = refl
one_counted false warn = refl

all_counted :
    (rs : List CheckResult)
    → length rs ≡ count_if is_pass rs + count_if is_warning rs + count_if is_failure rs
all_counted [] = refl
all_counted (r ∷ rs) = omega (arith, all_counted rs, one_counted r.passed r.severity)

-- The four numbers of the summary of a list that is not empty: the total is its length, and the passes,
-- the warnings and the failures are the numbers of the results that passed, of those that did not and
-- are of severity warn, and of the others that did not.
pub summarize-counts :
    (r : CheckResult) (rs : List CheckResult)
    → summarize (r ∷ rs)
      ≡ ok (record {
        total = length (r ∷ rs);
        passes = count_if is_pass (r ∷ rs);
        warnings = count_if is_warning (r ∷ rs);
        failures = count_if is_failure (r ∷ rs);
      })
unfolding summarize
summarize-counts r rs =
    let passes : length (r ∷ rs)
          - (0 + count_if is_failure (r ∷ rs))
          - (0 + count_if is_warning (r ∷ rs))
        ≡ count_if is_pass (r ∷ rs) =
      omega (arith, all_counted (r ∷ rs)) in
    ap (λ c. ok (summary_of (length (r ∷ rs)) c)) (tally-counts (r ∷ rs) 0 0)
    ∙ ground (arith, passes)

code_step :
    (b more : Bool) (n : ℕ)
    → one_if (not (n == 0)) ≡ one_if more
    → one_if (not (one_if b + n == 0)) ≡ one_if (b || more)
code_step true more n h = ground arith
code_step false more n h = ground arith

code_of_failures :
    (rs : List CheckResult) → one_if (not (count_if is_failure rs == 0)) ≡ one_if (has_failure rs)
code_of_failures [] = refl
code_of_failures (r ∷ rs) =
    code_step (is_failure r) (has_failure rs) (count_if is_failure rs) (code_of_failures rs)

flipped : (b : Bool) → (if b then 0 else 1) ≡ one_if (not b)
flipped true = refl
flipped false = refl

if_there :
    {A : Type 0} (b : Bool) (m n : Exec Suite A) (s : Suite)
    → b ≡ true
    → (if not b then m else n) s ≡ n s
if_there true m n s h = refl
if_there false m n s h = cc

abbrev code_of : Result Summary → Result ℕ
code_of (ok summary) = ok (exit_code summary)
code_of (err e) = err e

print_summary-code :
    (rs : List CheckResult) (code : ℕ) → print_summary rs ≡ ok code → code ≡ one_if (has_failure rs)
unfolding print_summary
print_summary-code [] code h = cc
print_summary-code (r ∷ rs) code h =
    let printed = ap code_of (summarize-counts r rs) in
    ok-injective _ _ (sym h ∙ printed)
    ∙ flipped (count_if is_failure (r ∷ rs) == 0)
    ∙ code_of_failures (r ∷ rs)

module _ {F : Type 0} ⦃number : Number F⦄ (env : Env F) (args : Args) where
  -- A run that returns from its checks: the code is the one of the results that it leaves.
  pub main-returned :
      (s : Suite) (code : ℕ)
      → env.exists "." ≡ true
      → (main env args s).0 ≡ ok code
      → ((all_checks env args s).0 ≡ ok tt)
        × ((main env args s).1 ≡ (all_checks env args s).1)
        × (code ≡ one_if (has_failure (all_checks env args s).1.results))
  unfolding main report
  main-returned s code there h =
      let enters =
        if_there (env.exists ".") (pure 2) (all_checks env args >> report env args) s there in
      let h' = sym (ap (λ (x : Result ℕ × Suite). x.0) enters) ∙ h in
      let (_, done, goes) = bind-returns (all_checks env args) (λ _. report env args) s h' in
      (
        done,
        ap (λ (x : Result ℕ × Suite). x.1) (enters ∙ goes),
        print_summary-code (all_checks env args s).1.results code
            (sym (ap (λ (x : Result ℕ × Suite). x.0) goes) ∙ h'),
      )

  -- Where the root of the repository is there, a run that ends with an exit code: the code is 1 just
  -- where a failure is among the results that the run leaves, and 0 otherwise; a warning does not count.
  pub main-code :
      (s : Suite) (code : ℕ)
      → env.exists "." ≡ true
      → (main env args s).0 ≡ ok code
      → code ≡ (if has_failure (main env args s).1.results then 1 else 0)
  main-code s code there h =
      let (done, same_end, coded) = main-returned s code there h in
      coded ∙ ap (λ (t : Suite). one_if (has_failure t.results)) (sym same_end)
