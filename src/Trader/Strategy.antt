-- ===== src/Trader/Strategy.antt =====
-- The strategies of handler.py: their ids, their S3 roots, their credentials and the control flag.
use infra_lab.Base.{
  ℕ, String, Bool, false, not, ◌&&◌, ◌||◌, Option, none, some, List, [], ◌∷◌, if◌then◌else◌, leb,
  length, all, lookup, Result, ok, err, runtime, key_error, type_error, str_eq,
}
use infra_lab.Base.Text.{◌<>◌, leb_codes, codes, lower, before_newline, is_lower, is_digit}
use infra_lab.Base.Number.{Number, text_of, truthy}
use infra_lab.Base.Json.{Json, Fields, str, member}

abbrev pub default_strategy : String
default_strategy = "a"

is_id_char : ℕ → Bool
is_id_char c = is_lower c || is_digit c

id_of : List ℕ → Bool
id_of [] = false
id_of (c ∷ cs) = is_lower c && all is_id_char cs && leb (length cs) 15

-- `STRATEGY_ID.match`: `$` lets a line feed stand behind the id.
unfoldable pub is_strategy_id : String → Bool
unfolding id_of is_id_char
is_strategy_id strategy = id_of (before_newline (codes strategy))

unfoldable pub strategy_root : String → String
strategy_root strategy =
    if str_eq strategy default_strategy then "" else "strategies/" <> (strategy <> "/")

-- The key prefix of the store of a run.
unfoldable pub store_prefix : Bool → String → String
unfolding strategy_root
store_prefix dry_run strategy = (if dry_run then "dryrun/" else "") <> strategy_root strategy

-- The environment has the default's ARN, and the parsed object of the other ARNs.
unfoldable pub alpaca_secret_arn :
    String → Option String → Result (List (String × String)) → Result String
alpaca_secret_arn strategy default_arn arns =
    if str_eq strategy default_strategy
    then elim default_arn [ none ↦ err key_error | some arn ↦ ok arn ]
    else elim arns [
      | err e ↦ err e
      | ok found ↦ elim (lookup strategy found) [
        | none ↦ err (runtime ("no credentials configured for strategy " <> strategy))
        | some arn ↦ ok arn
      ]
    ]

-- `d.get(key, default)`, where it is compared with a text.
date_of : {F : Type 0} → String → Option (Json F) → Result String
date_of default none = ok default
date_of default (some (str s)) = ok s
date_of default (some v) = err type_error

module _ {F : Type 0} ⦃number : Number F⦄ where
  -- `str(event.get("strategy") or DEFAULT_STRATEGY).lower()`
  unfoldable pub strategy_of : Option (Json F) → String
  unfolding lower
  strategy_of none = lower default_strategy
  strategy_of (some v) = lower (if truthy (some v) then text_of v else default_strategy)

  -- Whether the control object lets a run of `today` go on.
  unfoldable pub is_enabled : String → Fields F → Result Bool
  unfolding leb_codes date_of
  is_enabled today control = elim (date_of "9999" (member "start_date" control)) [
    | err e ↦ err e
    | ok first ↦
        if not (leb_codes (codes first) (codes today))
        then ok false
        else elim (date_of "" (member "end_date" control)) [
          | err e ↦ err e
          | ok final ↦
              ok (truthy (member "enabled" control) && leb_codes (codes today) (codes final))
        ]
  ]
