-- ===== src/Base/Number.antt =====
-- Python's numbers, `int` and `float`, as far as the program computes with them: a type with the
-- literals, the comparisons and the operations that the code uses. Nothing is assumed of them
-- beyond the laws of `Lawful`, which a theorem names where it needs them.
use infra_lab.Base.{
  ℕ, String, ◌≡◌, Bool, true, false, not, Option, none, some, List, Result, ok, err, zero_division,
  if◌then◌else◌,
}
use infra_lab.Base.Int.{ℤ, pos, ◌≤ℤ◌}
use infra_lab.Base.Json.{
  Json, Fields, null, bool, str, arr, obj, none_left, item, end, field, member,
}
use infra_lab.Base.Text.{is_blank}

pub record Number (F : Type 0) : Type 0 where
  -- an `int`
  pub of_ℤ : ℤ → F
  -- `decimal m k` is the float literal m / 10 ^ k
  pub decimal : ℕ → ℕ → F
  pub add : F → F → F
  pub sub : F → F → F
  pub mul : F → F → F
  -- the quotient where the divisor is not zero
  pub quotient : F → F → F
  pub abs : F → F
  -- round(x, 2)
  pub round2 : F → F
  -- round(x), which raises for a NaN and for an infinity
  pub round : F → Result ℤ
  -- round(x, 4)
  pub round4 : F → F
  pub lt : F → F → Bool
  pub le : F → F → Bool
  -- `x == 0`, so `not x`
  pub is_zero : F → Bool
  -- math.floor, which raises for a NaN and for an infinity
  pub floor : F → Result ℤ
  -- the value of an `int`; a float has none, so `range` refuses it
  pub index? : F → Option ℤ
  -- `float(text)`, with `none` for a ValueError
  pub parse : String → Option F
  -- `str(x)`
  pub show : F → String
  -- `statistics.mean` of a list that is not empty
  pub mean : List F → F
  -- `str` of a JSON value that is no text
  pub repr : Json F → String

module _ {F : Type 0} ⦃num : Number F⦄ where
  abbrev pub of_ℕ : ℕ → F
  of_ℕ n = num.of_ℤ (pos n)

  -- `a / b`
  abbrev pub divide : F → F → Result F
  divide a b = if num.is_zero b then err zero_division else ok (num.quotient a b)

  -- `str(value)`
  abbrev pub text_of : Json F → String
  text_of (str s) = s
  text_of v = num.repr v

  -- `str(d.get(key, default))`
  abbrev pub get_text : String → String → Fields F → String
  get_text key default d = elim (member key d) [ none ↦ default | some v ↦ text_of v ]

  -- `bool(value)` for what `get` returned
  abbrev pub truthy : Option (Json F) → Bool
  truthy none = false
  truthy (some null) = false
  truthy (some (bool b)) = b
  truthy (some (Json.num x)) = not (num.is_zero x)
  truthy (some (str s)) = not (is_blank s)
  truthy (some (arr none_left)) = false
  truthy (some (arr (item v vs))) = true
  truthy (some (obj end)) = false
  truthy (some (obj (field k v d))) = true

  -- `_f(value)` of tools.py: `float(value)`, or None where that raises.
  abbrev pub to_float : Option (Json F) → Option F
  to_float (some (Json.num x)) = some x
  to_float (some (str s)) = num.parse s
  to_float (some (bool true)) = some (num.decimal 1 0)
  to_float (some (bool false)) = some (num.decimal 0 0)
  to_float v = none

-- What the theorems assume: `math.floor(x)` is at most `x`, and comparing a smaller integer with
-- the same number cannot fail where a larger one passes (Python compares int and float exactly).
pub record Lawful (F : Type 0) ⦃num : Number F⦄ : Type 0 where
  pub floor_le : (x : F) (n : ℤ) → num.floor x ≡ ok n → num.le (num.of_ℤ n) x ≡ true
  pub le_below :
      (m n : ℤ) (x : F) → m ≤ℤ n → num.le (num.of_ℤ n) x ≡ true → num.le (num.of_ℤ m) x ≡ true
