-- ===== src/Foundation/Suite.antt =====
-- The results, the commands and the files of validate_foundation.py: `Result`, `Suite`, `run`,
-- `aws_json` and the helpers on the repository. The files do not change while the checks run; what a
-- command does is a function of the commands before it.
use infra_lab.Base.{
  ℕ, String, Bool, true, false, not, Option, none, some, List, [], ◌∷◌, ◌++◌, all, any,
  if◌then◌else◌, Result, ok, err, type_error, index_error, key_error, or_raise, str_eq, Exec,
}
use infra_lab.Base.Stateful.{pure, lift, modify, ◌>>=◌, ◌>>◌}
use infra_lab.Base.Text.{strip, lower, has_text, is_blank}
use infra_lab.Base.Int.{ℤ, pos}
pub use infra_lab.Base.Dynamic.{get_or, dict_of}
use infra_lab.Base.Dynamic.{characters}
unfoldable pub use infra_lab.Base.Dynamic.{iterate, get_each, texts_of}
use infra_lab.Base.Json.{Json, Fields, none_left, item, str, arr, obj}

pub data Severity : Type 0 where
  fail warn : Severity

-- `Result`
pub record CheckResult : Type 0 where
  pub name : String
  pub passed : Bool
  pub detail : String
  pub severity : Severity

-- A command line and its working directory.
pub record Command : Type 0 where
  pub words : List String
  pub directory : Option String

-- What `run` returns.
pub record Done : Type 0 where
  pub code : ℤ
  pub out : String
  pub problem : String

-- The results in order, and the commands run so far, newest first.
pub record Suite : Type 0 where
  pub results : List CheckResult
  pub commands : List Command

pub record Env (F : Type 0) : Type 0 where
  -- by paths under the root of the repository; a file that is read may be a directory
  pub exists : String → Bool
  pub is_dir : String → Bool
  pub read_text : String → Result String
  -- the paths that `workflow_files` globs, in order
  pub workflow_glob : List String
  -- `shutil.which(name) is not None`
  pub which : String → Bool
  -- `subprocess.run`, which raises where there is no such command
  pub run : List Command → Command → Result Done
  -- `json.loads`, with `none` for a JSONDecodeError
  pub loads : String → Option (Json F)
  -- `str` of a set
  pub show_set : List (Json F) → String

-- What `aws_json` returns: the parsed object, or the text under "error".
pub data AwsReply (F : Type 0) : Type 0 where
  answered : Json F → AwsReply F
  failed : String → AwsReply F

abbrev pub is_zero : ℤ → Bool
is_zero (pos ℕ.zero) = true
is_zero n = false

-- `a or b` for texts
abbrev pub or_text : String → String → String
or_text a b = if is_blank a then b else a

-- `Suite.add`
unfoldable pub add : String → Bool → String → Severity → Exec Suite (Unit {0})
add name passed detail severity = modify (λ s. record s {
  results =
      s.results
      ++ (record { name = name; passed = passed; detail = detail; severity = severity } ∷ []);
})

-- A result with one of two details.
unfoldable pub add_either : String → Bool → String → String → Severity → Exec Suite (Unit {0})
add_either name passed good bad severity = add name passed (if passed then good else bad) severity

-- `for a in items: f(a)`
unfoldable pub for_each {ℓ} :
    {A : Type ℓ} → List A → (A → Exec Suite (Unit {0})) → Exec Suite (Unit {0})
for_each [] f = pure tt
for_each (a ∷ rest) f = f a >> for_each rest f

module _ {F : Type 0} (env : Env F) where
  -- One call of `subprocess.run`.
  unfoldable pub spawn : Command → Exec Suite Done
  spawn command s = (env.run s.commands command, record s { commands = command ∷ s.commands })

  unfoldable pub run : List String → Option String → Exec Suite Done
  unfolding spawn strip
  run words directory = do
    done ← spawn (record { words = words; directory = directory })
    pure (record done { out = strip done.out; problem = strip done.problem })

  abbrev region_words : Option String → List String
  region_words none = []
  region_words (some region) = if is_blank region then [] else "--region" ∷ region ∷ []

  parse_reply : Option (Json F) → AwsReply F
  parse_reply none = failed "invalid json"
  parse_reply (some v) = answered v

  unfoldable pub reply_of : Done → AwsReply F
  unfolding parse_reply
  reply_of done =
      if not (is_zero done.code)
      then failed (or_text done.problem (or_text done.out "aws cli error (no output)"))
      else parse_reply (env.loads (or_text done.out "{}"))

  unfoldable pub aws_json : String → List String → Option String → Exec Suite (AwsReply F)
  unfolding run reply_of
  aws_json profile args region = do
    done ←
        run
          (("aws" ∷ "--profile" ∷ profile ∷ [])
            ++ (region_words region ++ (args ++ ("--output" ∷ "json" ∷ []))))
          none
    pure (reply_of done)

  unfoldable pub path_exists : List String → Bool
  path_exists candidates = any env.exists candidates

  unfoldable pub first_existing : List String → Option String
  first_existing [] = none
  first_existing (c ∷ cs) = if env.exists c then some c else first_existing cs

  unfoldable pub workflow_files : List String
  workflow_files = if not (env.exists ".github/workflows") then [] else env.workflow_glob

  has_all : List String → String → Bool
  has_all tokens text = all (λ t. has_text text (lower t)) tokens

  any_file_contains : List String → List String → Result Bool
  any_file_contains tokens [] = ok false
  any_file_contains tokens (path ∷ paths) = elim (env.read_text path) [
    | err e ↦ err e
    | ok text ↦ if has_all tokens (lower text) then ok true else any_file_contains tokens paths
  ]

  unfoldable pub any_workflow_contains : List String → Result Bool
  unfolding any_file_contains has_all lower has_text workflow_files
  any_workflow_contains tokens = any_file_contains tokens workflow_files

module _ {F : Type 0} where
  abbrev head_of : List (Json F) → Option (Json F)
  head_of [] = none
  head_of (v ∷ vs) = some v

  -- `value == text`
  abbrev pub is_text : String → Json F → Bool
  is_text t (str s) = str_eq s t
  is_text t v = false

  -- A value where only a text can stand: a word of a command, or an operand of `+`.
  abbrev pub text_only : Json F → Result String
  text_only (str s) = ok s
  text_only v = err type_error

  -- The members of a set: a list or a dict cannot be one.
  unfoldable pub set_of : List (Json F) → Result (List (Json F))
  set_of [] = ok []
  set_of (arr vs ∷ rest) = err type_error
  set_of (obj d ∷ rest) = err type_error
  set_of (v ∷ rest) = elim (set_of rest) [ ok vs ↦ ok (v ∷ vs) | err e ↦ err e ]

  -- `value[0]`, for a value that is not empty
  unfoldable pub first_item : Json F → Result (Json F)
  first_item (arr (item v vs)) = ok v
  first_item (arr none_left) = err index_error
  first_item (str s) = or_raise index_error (head_of (characters s))
  first_item (obj d) = err key_error
  first_item v = err type_error

  -- `any(p(x) for x in values)`: what follows the first that holds is not looked at.
  unfoldable pub any_of : (Json F → Result Bool) → List (Json F) → Result Bool
  any_of p [] = ok false
  any_of p (v ∷ vs) = elim (p v) [ err e ↦ err e | ok b ↦ if b then ok true else any_of p vs ]

  -- The reply of `aws_json` as it is read by most checks: a result for a failure, and what is done
  -- with the dict otherwise.
  unfoldable pub on_reply :
      String → Severity → (Fields F → Exec Suite (Unit {0})) → AwsReply F → Exec Suite (Unit {0})
  on_reply name severity f (failed problem) = add name false problem severity
  on_reply name severity f (answered v) = lift (dict_of v) >>= f
