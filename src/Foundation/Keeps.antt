-- ===== src/Foundation/Keeps.antt =====
-- A failure that is recorded stays recorded: rules for the ways to build a check, and the checks of
-- validate_foundation.py.
use infra_lab.Base.{
  String, ◌≡◌, refl, Bool, true, false, not, ◌||◌, Option, List, [], ◌∷◌, ◌++◌, any, if◌then◌else◌,
  Result, Exec,
}
use infra_lab.Base.Stateful.{pure, lift, gets, bind-ends, ◌>>=◌}
use infra_lab.Base.Json.{Fields}
use infra_lab.Foundation.Suite.{
  Env, Suite, CheckResult, Severity, fail, warn, AwsReply, answered, failed, Command, spawn, run,
  aws_json, add, add_either, for_each, on_reply,
}

-- A failure, but no warning.
abbrev pub is_failure : CheckResult → Bool
is_failure r = elim r.severity [ fail ↦ not r.passed | warn ↦ false ]

abbrev pub has_failure : List CheckResult → Bool
has_failure results = any is_failure results

-- Whether `m` returns or raises, a failure among the results is among them afterwards.
pub record Keeps {ℓ} {A : Type ℓ} (m : Exec Suite A) : Type ℓ where
  pub at : (s : Suite) → has_failure s.results ≡ true → has_failure (m s).1.results ≡ true

any_first : (xs ys : List CheckResult) → has_failure xs ≡ true → has_failure (xs ++ ys) ≡ true
any_first [] ys h = cc
any_first (x ∷ xs) ys h = go (is_failure x) (any_first xs ys) h
  where
    go : {p q : Bool} (b : Bool) → (p ≡ true → q ≡ true) → (b || p) ≡ true → (b || q) ≡ true
    go true more h = refl
    go false more h = more h

any_second : (xs ys : List CheckResult) → has_failure ys ≡ true → has_failure (xs ++ ys) ≡ true
any_second [] ys h = h
any_second (x ∷ xs) ys h = go (is_failure x) (any_second xs ys h)
  where
    go : {q : Bool} (b : Bool) → q ≡ true → (b || q) ≡ true
    go true more = refl
    go false more = more

module _ {ℓ} {A : Type ℓ} where
  pub Keeps-pure : (a : A) → Keeps (pure {S = Suite} a)
  Keeps-pure a = record { at = λ s h. h }

  pub Keeps-lift : (r : Result A) → Keeps (lift {S = Suite} r)
  Keeps-lift r = record { at = λ s h. h }

  pub Keeps-gets : (f : Suite → A) → Keeps (gets f)
  Keeps-gets f = record { at = λ s h. h }

  pub Keeps-if : (b : Bool) (m n : Exec Suite A) → Keeps m → Keeps n → Keeps (if b then m else n)
  Keeps-if true m n q r = q
  Keeps-if false m n q r = r

module _ {ℓ κ} {A : Type ℓ} {B : Type κ} where
  pub Keeps-bind :
      (m : Exec Suite A) (f : A → Exec Suite B)
      → Keeps m
      → ((a : A) → Keeps (f a))
      → Keeps (m >>= f)
  Keeps-bind m f q r = record {
    at = λ s h.
        bind-ends (λ x. has_failure x.1.results ≡ true) m f s (λ e raised. q.at s h)
          (λ a returned. (r a).at (m s).1 (q.at s h));
  }

pub Keeps-add :
    (name : String) (passed : Bool) (detail : String) (severity : Severity)
    → Keeps (add name passed detail severity)
unfolding add
Keeps-add name passed detail severity = record { at = λ s h. any_first s.results _ h }

pub Keeps-either :
    (name : String) (passed : Bool) (good bad : String) (severity : Severity)
    → Keeps (add_either name passed good bad severity)
unfolding add_either
Keeps-either name passed good bad severity = Keeps-add name passed _ severity

-- A failure that is added is recorded.
pub add_records :
    (name detail : String) (s : Suite) → has_failure (add name false detail fail s).1.results ≡ true
unfolding add
add_records name detail s = any_second s.results _ refl

pub either_records :
    (name good bad : String) (passed : Bool) (s : Suite)
    → passed ≡ false
    → has_failure (add_either name passed good bad fail s).1.results ≡ true
unfolding add_either
either_records name good bad true s h = cc
either_records name good bad false s h = add_records name bad s

pub Keeps-each {ℓ} :
    {A : Type ℓ} (items : List A) (f : A → Exec Suite (Unit {0}))
    → ((a : A) → Keeps (f a))
    → Keeps (for_each items f)
unfolding for_each
Keeps-each [] f q = Keeps-pure tt
Keeps-each (a ∷ rest) f q = Keeps-bind (f a) (λ _. for_each rest f) (q a) (λ _. Keeps-each rest f q)

pub ruleset keep_rules =
    (Keeps-pure, Keeps-lift, Keeps-gets, Keeps-if, Keeps-bind, Keeps-add, Keeps-either, Keeps-each)

module _ {F : Type 0} (env : Env F) where
  spawn-Keeps : (command : Command) → Keeps (spawn env command)
  unfolding spawn
  spawn-Keeps command = record { at = λ s h. h }

  pub run-Keeps :
      (words : List String) (directory : Option String) → Keeps (run env words directory)
  unfolding run
  run-Keeps words directory = search (keep_rules, spawn-Keeps)

  pub aws_json-Keeps :
      (profile : String) (args : List String) (region : Option String)
      → Keeps (aws_json env profile args region)
  unfolding aws_json
  aws_json-Keeps profile args region = search (keep_rules, run-Keeps)

module _ {F : Type 0} where
  pub on_reply-Keeps :
      (name : String) (severity : Severity) (f : Fields F → Exec Suite (Unit {0}))
      → ((d : Fields F) → Keeps (f d))
      → (reply : AwsReply F) → Keeps (on_reply name severity f reply)
  unfolding on_reply
  on_reply-Keeps name severity f q (failed problem) = search keep_rules
  on_reply-Keeps name severity f q (answered v) = search (keep_rules, q)
