-- ===== src/Base/Raise.antt =====
-- Python's exceptions as values.
use Prim.Native.Nat.{ℕ}
use Prim.Native.String.{String}
use mathlib.Core.Path.{◌≡◌, refl}
use mathlib.Core.Option.{Option, none, some}

-- The exceptions that the modelled code raises or tells apart. `http` is an HTTP or API error with
-- its status and body, `client` a botocore error with its code.
pub data PyError : Type 0 where
  type_error value_error key_error index_error zero_division overflow attribute_error : PyError
  http : ℕ → String → PyError
  client runtime config lock_held other : String → PyError

pub data Result {ℓ} (A : Type ℓ) : Type ℓ where
  ok : A → Result A
  err : PyError → Result A

module _ {ℓ κ} {A : Type ℓ} {B : Type κ} where
  infixl 5 ◌>>=◌ ◌>>◌
  abbrev pub ◌>>=◌ : Result A → (A → Result B) → Result B
  (ok value) >>= next = next value
  (err error) >>= next = err error

  abbrev pub ◌>>◌ : Result A → Result B → Result B
  first >> second = first >>= λ ignored. second

  -- A chain that returned: its first part did, and so did the rest from there.
  pub >>=-eq-ok :
      (first : Result A) (next : A → Result B) {result : B}
      → (first >>= next) ≡ ok result
      → (value : A) × (first ≡ ok value) × (next value ≡ ok result)
  >>=-eq-ok (err error) next returned = cc
  >>=-eq-ok (ok value) next returned = (value, refl, returned)

module _ {ℓ} {A : Type ℓ} where
  abbrev pub or_raise : PyError → Option A → Result A
  or_raise e none = err e
  or_raise e (some a) = ok a

  pub ok-injective : (a b : A) → ok a ≡ ok b → a ≡ b
  ok-injective a b h = cc

  pub err-injective : (d e : PyError) → Path (Result A) (err d) (err e) → d ≡ e
  err-injective d e h = cc
