-- ===== src/Trader/Config/Errors.antt =====
-- The exceptions of `Params.from_dict` of guardrails.py.
use infra_lab.Base.{
  ℕ, String, ◌≡◌, refl, Bool, true, false, ◌&&◌, none, some, ltb, ◌==◌, if◌then◌else◌, List, [],
  ◌∷◌, PyError, Result, ok, err, config, value_error, key_error, overflow, count_if, ◌⊎◌, inl, inr,
  Option,
}
use infra_lab.Base.Raise.{◌>>=◌}
use infra_lab.Base.Int.{ℤ, pos, negsuc}
use infra_lab.Base.Text.{◌<>◌, codes, strip, split, is_digit}
use infra_lab.Base.Number.{Number}
use infra_lab.Base.Json.{Json, Fields, obj, null, num, str, member}
use infra_lab.Trader.Config.{
  Clock, bounds, read_limit, read_limits, build, from_dict, parse_time, or_bad_time, unpack_time,
  int_of, signed, read_int, in_range, clock, fits_int,
}
use infra_lab.Trader.Config.Laws.{read_limits-Reads, build_total}

-- The exception is a ConfigError.
abbrev pub IsConfig : PyError → Type 0
IsConfig e = (message : String) × (e ≡ config message)

-- Parts of a time that are two integers, of which one is no integer of C.
pub record IsHuge (parts : List String) : Type 0 where
  pub h : String
  pub m : String
  pub hour : ℤ
  pub minute : ℤ
  pub whole : parts ≡ h ∷ m ∷ []
  pub reads_hour : int_of h ≡ ok hour
  pub reads_minute : int_of m ≡ ok minute
  pub out : (fits_int hour && fits_int minute) ≡ false

-- The outcome is a value, a ConfigError, or for such a time an OverflowError.
abbrev pub Rejects {ℓ} : {A : Type ℓ} → List String → Result A → Type 0
Rejects parts (ok a) = Unit
Rejects parts (err e) = IsConfig e ⊎ ((e ≡ overflow) × IsHuge parts)

Rejects-bind {ℓ κ} :
    {A : Type ℓ} {B : Type κ} (parts : List String) (m : Result A) (f : A → Result B)
    → Rejects parts m
    → ((a : A) → m ≡ ok a → Rejects parts (f a))
    → Rejects parts (m >>= f)
Rejects-bind parts (ok a) f h k = k a refl
Rejects-bind parts (err e) f h k = h

-- The errors of the `try` block that its `except` clause names.
abbrev IsTimeError {ℓ} : {A : Type ℓ} → Result A → Type 0
IsTimeError (ok t) = Unit
IsTimeError (err e) = (e ≡ key_error) ⊎ (e ≡ value_error)

-- The errors of the `try` block.
abbrev IsAnyError : List String → Result Clock → Type 0
IsAnyError parts (ok t) = Unit
IsAnyError parts (err e) = ((e ≡ key_error) ⊎ (e ≡ value_error)) ⊎ ((e ≡ overflow) × IsHuge parts)

widen : (parts : List String) (r : Result Clock) → IsTimeError r → IsAnyError parts r
widen parts (ok t) h = tt
widen parts (err e) h = inl h

IsTimeError-if {ℓ} :
    {A : Type ℓ} (b : Bool) (r r' : Result A)
    → IsTimeError r
    → IsTimeError r'
    → IsTimeError (if b then r else r')
IsTimeError-if true r r' h h' = h
IsTimeError-if false r r' h h' = h'

signed-IsTimeError : (minus : Bool) (n : Option ℕ) → IsTimeError (signed minus n)
unfolding signed
signed-IsTimeError minus none = inr refl
signed-IsTimeError true (some n) = tt
signed-IsTimeError false (some n) = tt

read_int-IsTimeError : (cs : List ℕ) → IsTimeError (read_int cs)
unfolding read_int
read_int-IsTimeError [] = inr refl
read_int-IsTimeError (c ∷ cs) =
    IsTimeError-if (c == b'-') _ _ (signed-IsTimeError true _)
      (IsTimeError-if (c == b'+') _ _ (signed-IsTimeError false _) (signed-IsTimeError false _))

int_of-IsTimeError : (s : String) → IsTimeError (int_of s)
unfolding int_of
int_of-IsTimeError s =
    IsTimeError-if (ltb 4300 (count_if is_digit (codes (strip s)))) _ _ (inr refl)
      (read_int-IsTimeError (codes (strip s)))

in_range-IsTimeError : (h m : ℤ) → IsTimeError (in_range h m)
unfolding in_range
in_range-IsTimeError (pos h) (pos m) = IsTimeError-if (ltb h 24 && ltb m 60) _ _ tt (inr refl)
in_range-IsTimeError (pos h) (negsuc m) = inr refl
in_range-IsTimeError (negsuc h) m = inr refl

clock_error :
    (parts : List String) (hour minute : ℤ) (fits : Bool)
    → (fits ≡ false → IsHuge parts)
    → IsAnyError parts (if fits then in_range hour minute else err overflow)
clock_error parts hour minute true huge = widen parts _ (in_range-IsTimeError hour minute)
clock_error parts hour minute false huge = inr (refl, huge refl)

two_parts :
    (h m : String) (hour minute : Result ℤ)
    → int_of h ≡ hour
    → int_of m ≡ minute
    → IsTimeError hour
    → IsTimeError minute
    → IsAnyError (h ∷ m ∷ []) (hour >>= λ x. minute >>= λ y. clock x y)
unfolding clock
two_parts h m (err e) minute p q first second = inl first
two_parts h m (ok x) (err e) p q first second = inl second
two_parts h m (ok x) (ok y) p q first second =
    clock_error (h ∷ m ∷ []) x y (fits_int x && fits_int y) (λ out. record {
      h = h;
      m = m;
      hour = x;
      minute = y;
      whole = refl;
      reads_hour = p;
      reads_minute = q;
      out = out;
    })

unpack_time-IsAnyError : (parts : List String) → IsAnyError parts (unpack_time parts)
unfolding unpack_time
unpack_time-IsAnyError [] = inl (inr refl)
unpack_time-IsAnyError (h ∷ []) = inl (inr refl)
unpack_time-IsAnyError (h ∷ m ∷ []) =
    two_parts h m (int_of h) (int_of m) refl refl (int_of-IsTimeError h) (int_of-IsTimeError m)
unpack_time-IsAnyError (h ∷ m ∷ x ∷ parts) = inl (inr refl)

or_bad_time-Rejects :
    (parts : List String) (r : Result Clock) → IsAnyError parts r → Rejects parts (or_bad_time r)
unfolding or_bad_time
or_bad_time-Rejects parts (ok t) h = tt
or_bad_time-Rejects parts (err e) (inl (inl h)) = rw h (inl (_, refl))
or_bad_time-Rejects parts (err e) (inl (inr h)) = rw h (inl (_, refl))
or_bad_time-Rejects parts (err e) (inr (h, huge)) = rw h (inr (refl, huge))

-- The parts of the time that a config names.
abbrev pub time_parts : {F : Type 0} → Option (Json F) → List String
time_parts none = []
time_parts (some (str s)) = split b':' s
time_parts (some v) = []

abbrev pub config_parts : {F : Type 0} → Json F → List String
config_parts (obj raw) = time_parts (member "last_entry_time" raw)
config_parts raw = []

module _ {F : Type 0} ⦃number : Number F⦄ where
  parse_time-IsAnyError : (v : Option (Json F)) → IsAnyError (time_parts v) (parse_time v)
  unfolding parse_time
  parse_time-IsAnyError none = inl (inl refl)
  parse_time-IsAnyError (some (str s)) = unpack_time-IsAnyError _
  parse_time-IsAnyError (some _) = inl (inr refl)

  module _ (parts : List String) where
    read_limit-Rejects :
        (key : String) (low high : F) (v : Option (Json F))
        → Rejects parts (read_limit key low high v)
    unfolding read_limit
    read_limit-Rejects key low high none = inl (_, refl)
    read_limit-Rejects key low high (some (num v)) = within (number.le low v && number.le v high)
      where
        within :
            (b : Bool)
            → Rejects parts
                (if b then ok v else err (config ("guardrail " <> (key <> " outside sane bounds"))))
        within true = tt
        within false = inl (_, refl)
    read_limit-Rejects key low high (some _) = inl (_, refl)

    read_limits-Rejects :
        (bs : List (String × (F × F))) (raw : Fields F) → Rejects parts (read_limits bs raw)
    unfolding read_limits
    read_limits-Rejects [] raw = tt
    read_limits-Rejects ((key, (low, high)) ∷ rest) raw =
        Rejects-bind parts (read_limit key low high (member key raw)) _
          (read_limit-Rejects key low high _)
          λ v _.
            Rejects-bind parts (read_limits rest raw) _ (read_limits-Rejects rest raw) λ vs _. tt

    -- With all the keys read, `cls(**values)` cannot fail.
    build-Rejects :
        (raw : Fields F) (values : List (String × F)) (at : Clock)
        → read_limits bounds raw ≡ ok values
        → Rejects parts (build values at)
    build-Rejects raw values at h =
        let (p, builds, _) = build_total raw values (read_limits-Reads bounds raw values h) in
        rw (builds at) tt

  -- Whatever the config object holds, `from_dict` returns limits or raises a ConfigError, but for one
  -- case: where the last entry time is two integers joined by a colon, of which one is no 32-bit integer,
  -- it may raise an OverflowError. It raises no other exception.
  pub from_dict-Rejects : (raw : Json F) → Rejects (config_parts raw) (from_dict raw)
  unfolding from_dict
  from_dict-Rejects (obj raw) =
      let parts = time_parts (member "last_entry_time" raw) in
      Rejects-bind parts (read_limits bounds raw) _ (read_limits-Rejects parts bounds raw)
        λ values read.
          Rejects-bind parts (or_bad_time (parse_time (member "last_entry_time" raw))) _
            (or_bad_time-Rejects parts _ (parse_time-IsAnyError (member "last_entry_time" raw)))
            λ at _. build-Rejects parts raw values at read
  from_dict-Rejects null = inl (_, refl)
  from_dict-Rejects _ = inl (_, refl)
