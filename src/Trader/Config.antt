-- ===== src/Trader/Config.antt =====
-- The private guardrail config: `_BOUNDS`, `Params` and `Params.from_dict` of guardrails.py.
pub mod Laws
pub mod Errors
use Prim.Native.Nat.{◌^◌}
use infra_lab.Base.{
  ℕ, ◌+◌, ◌-◌, ◌*◌, String, Bool, true, false, ◌&&◌, Option, none, some, List, [], ◌∷◌, ◌==◌, ltb,
  if◌then◌else◌, lookup, Result, ok, err, overflow, count_if, value_error, type_error, key_error,
  config, or_raise,
}
use infra_lab.Base.Raise.{◌>>=◌}
use infra_lab.Base.Int.{ℤ, pos, negsuc, sub_ℕ, pos_part, neg_part}
use infra_lab.Base.Text.{◌<>◌, codes, strip, split, is_digit}
use infra_lab.Base.Number.{Number, of_ℕ}
use infra_lab.Base.Json.{Json, Fields, bool, obj, num, str, member}

-- `datetime.time`
pub record Clock : Type 0 where
  pub hour : ℕ
  pub minute : ℕ

pub record Params (F : Type 0) : Type 0 where
  pub max_positions : F
  pub max_position_pct : F
  pub risk_pct : F
  pub max_stop_pct : F
  pub reward_r : F
  pub daily_loss_halt_pct : F
  pub last_entry_time : Clock
  pub min_price : F
  pub min_avg_volume : F
  pub min_avg_dollar_volume : F
  pub max_entry_deviation_pct : F
  pub max_orders_per_run : F
  pub max_orders_per_day : F
  pub max_turns : F
  pub max_run_cost_usd : F

-- One more character of the digits that `int` reads: the value so far, and whether a digit was last.
next_digit : ℕ → Bool → ℕ → Option (ℕ × Bool)
next_digit acc digit_last c =
    if is_digit c
    then some (acc * 10 + (c - 48), true)
    else if (c == b'_') && digit_last
    then some (acc, false)
    else none

read_digits : ℕ → Bool → List ℕ → Option ℕ
read_digits acc digit_last [] = if digit_last then some acc else none
read_digits acc digit_last (c ∷ cs) = elim (next_digit acc digit_last c) [
  | none ↦ none
  | some (acc', last') ↦ read_digits acc' last' cs
]

signed : Bool → Option ℕ → Result ℤ
signed minus none = err value_error
signed true (some n) = ok (sub_ℕ 0 n)
signed false (some n) = ok (pos n)

read_int : List ℕ → Result ℤ
read_int [] = err value_error
read_int (c ∷ cs) =
    if c == b'-'
    then signed true (read_digits 0 false cs)
    else if c == b'+'
    then signed false (read_digits 0 false cs)
    else signed false (read_digits 0 false (c ∷ cs))

-- `int(text)`, which refuses more than 4300 digits
unfoldable pub int_of : String → Result ℤ
unfolding next_digit read_digits signed read_int strip
int_of text =
    if ltb 4300 (count_if is_digit (codes (strip text)))
    then err value_error
    else read_int (codes (strip text))

-- Whether an integer is one of C.
abbrev pub fits_int : ℤ → Bool
fits_int (pos n) = ltb n (2 ^ 31)
fits_int (negsuc n) = ltb n (2 ^ 31)

in_range : ℤ → ℤ → Result Clock
in_range (pos h) (pos m) =
    if ltb h 24 && ltb m 60 then ok (record { hour = h; minute = m }) else err value_error
in_range h m = err value_error

-- `time(hour, minute)`: an OverflowError where one is no integer of C.
clock : ℤ → ℤ → Result Clock
unfolding in_range
clock h m = if fits_int h && fits_int m then in_range h m else err overflow

unpack_time : List String → Result Clock
unpack_time (h ∷ m ∷ []) = do hour ← int_of h; minute ← int_of m; clock hour minute
unpack_time parts = err value_error

-- The `except` clause: both errors become the same ConfigError. It does not catch an OverflowError.
or_bad_time : Result Clock → Result Clock
or_bad_time (ok t) = ok t
or_bad_time (err key_error) = err (config "guardrail last_entry_time must be HH:MM")
or_bad_time (err value_error) = err (config "guardrail last_entry_time must be HH:MM")
or_bad_time (err e) = err e

module _ {F : Type 0} ⦃number : Number F⦄ where
  -- `int(x)` of a number: towards 0
  truncate : F → Result ℤ
  truncate x =
      if number.lt x (of_ℕ 0)
      then elim (number.floor (number.sub (of_ℕ 0) x)) [
        | err e ↦ err e
        | ok n ↦ ok (sub_ℕ (neg_part n) (pos_part n))
      ]
      else number.floor x

  -- `int(value)`
  unfoldable pub int_value : Json F → Result ℤ
  unfolding truncate int_of
  int_value (str s) = int_of s
  int_value (num x) = truncate x
  int_value (bool b) = ok (pos (if b then 1 else 0))
  int_value v = err type_error

module _ {F : Type 0} where
  -- The `try` block. `str` of a value that is no text never gives two integers joined by a colon.
  pub parse_time : Option (Json F) → Result Clock
  parse_time none = err key_error
  parse_time (some (str s)) = unpack_time (split b':' s)
  parse_time (some v) = err value_error

module _ {F : Type 0} ⦃number : Number F⦄ where
  -- `_BOUNDS`: each key with the least and the greatest value that is sane.
  pub bounds : List (String × (F × F))
  bounds =
      ("max_positions", (of_ℕ 1, of_ℕ 20))
      ∷ ("max_position_pct", (number.decimal 1 3, number.decimal 5 1))
      ∷ ("risk_pct", (number.decimal 1 4, number.decimal 2 2))
      ∷ ("max_stop_pct", (number.decimal 1 3, number.decimal 10 2))
      ∷ ("reward_r", (number.decimal 5 1, number.decimal 10 0))
      ∷ ("daily_loss_halt_pct", (number.decimal 1 3, number.decimal 10 2))
      ∷ ("min_price", (number.decimal 1 0, number.decimal 10000 0))
      ∷ ("min_avg_volume", (of_ℕ 1, of_ℕ (10 ^ 10)))
      ∷ ("min_avg_dollar_volume", (of_ℕ 1, of_ℕ (10 ^ 13)))
      ∷ ("max_entry_deviation_pct", (number.decimal 1 4, number.decimal 5 2))
      ∷ ("max_orders_per_run", (of_ℕ 1, of_ℕ 50))
      ∷ ("max_orders_per_day", (of_ℕ 1, of_ℕ 500))
      ∷ ("max_turns", (of_ℕ 1, of_ℕ 100))
      ∷ ("max_run_cost_usd", (number.decimal 1 2, number.decimal 25 0))
      ∷ []

  -- One round of the loop over `_BOUNDS`.
  pub read_limit : String → F → F → Option (Json F) → Result F
  read_limit key low high none = err (config ("guardrail config missing " <> key))
  read_limit key low high (some (num value)) =
      if number.le low value && number.le value high
      then ok value
      else err (config ("guardrail " <> (key <> " outside sane bounds")))
  read_limit key low high (some v) = err (config ("guardrail " <> (key <> " must be a number")))

  pub read_limits : List (String × (F × F)) → Fields F → Result (List (String × F))
  read_limits [] raw = ok []
  read_limits ((key, (low, high)) ∷ rest) raw = do
    value ← read_limit key low high (member key raw)
    values ← read_limits rest raw
    ok ((key, value) ∷ values)

  -- `cls(**values)`
  pub build : List (String × F) → Clock → Result (Params F)
  build values at = do
    max_positions ← keyword "max_positions"
    max_position_pct ← keyword "max_position_pct"
    risk_pct ← keyword "risk_pct"
    max_stop_pct ← keyword "max_stop_pct"
    reward_r ← keyword "reward_r"
    daily_loss_halt_pct ← keyword "daily_loss_halt_pct"
    min_price ← keyword "min_price"
    min_avg_volume ← keyword "min_avg_volume"
    min_avg_dollar_volume ← keyword "min_avg_dollar_volume"
    max_entry_deviation_pct ← keyword "max_entry_deviation_pct"
    max_orders_per_run ← keyword "max_orders_per_run"
    max_orders_per_day ← keyword "max_orders_per_day"
    max_turns ← keyword "max_turns"
    max_run_cost_usd ← keyword "max_run_cost_usd"
    ok (record {
      max_positions = max_positions;
      max_position_pct = max_position_pct;
      risk_pct = risk_pct;
      max_stop_pct = max_stop_pct;
      reward_r = reward_r;
      daily_loss_halt_pct = daily_loss_halt_pct;
      last_entry_time = at;
      min_price = min_price;
      min_avg_volume = min_avg_volume;
      min_avg_dollar_volume = min_avg_dollar_volume;
      max_entry_deviation_pct = max_entry_deviation_pct;
      max_orders_per_run = max_orders_per_run;
      max_orders_per_day = max_orders_per_day;
      max_turns = max_turns;
      max_run_cost_usd = max_run_cost_usd;
    })
    where
      keyword : String → Result F
      keyword key = or_raise type_error (lookup key values)

  unfoldable pub from_dict : Json F → Result (Params F)
  unfolding read_limits read_limit build bounds parse_time or_bad_time unpack_time clock split
      int_of
  from_dict (obj raw) = do
    values ← read_limits bounds raw
    at ← or_bad_time (parse_time (member "last_entry_time" raw))
    build values at
  from_dict raw = err (config "guardrail config is not an object")
