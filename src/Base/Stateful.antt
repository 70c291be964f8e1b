-- ===== src/Base/Stateful.antt =====
-- Code that changes a state and may raise. What was written before a raise stays written, so the
-- state comes back beside the exception too.
use mathlib.Core.Path.{◌≡◌, refl, ap, ◌∙◌}
use infra_lab.Base.Raise.{PyError, Result, ok, err, ok-injective}

abbrev pub Exec {ℓ κ} : Type ℓ → Type κ → Type (ℓ ⊔ κ)
Exec S A = S → Result A × S

module _ {ℓ κ} {S : Type ℓ} {A : Type κ} where
  abbrev pub lift : Result A → Exec S A
  lift outcome before = (outcome, before)

  abbrev pub pure : A → Exec S A
  pure value before = (ok value, before)

  abbrev pub gets : (S → A) → Exec S A
  gets read before = (ok (read before), before)

  abbrev pub raise : PyError → Exec S A
  raise error before = (err error, before)

  -- `try: m` with the outcome as a value, for the handlers of an `except`.
  abbrev pub attempt : Exec S A → Exec S (Result A)
  attempt m s = let (r, s') = m s in (ok r, s')

abbrev pub modify {ℓ} : {S : Type ℓ} → (S → S) → Exec S (Unit {0})
modify f s = (ok tt, f s)

infixl 5 ◌>>=◌ ◌>>◌
abbrev pub ◌>>=◌ {ℓ κ μ} :
    {S : Type ℓ} {A : Type κ} {B : Type μ} → Exec S A → (A → Exec S B) → Exec S B
◌>>=◌ m f s = let (r, s') = m s in elim r [ ok a ↦ f a s' | err e ↦ (err e, s') ]

abbrev pub ◌>>◌ {ℓ κ μ} : {S : Type ℓ} {A : Type κ} {B : Type μ} → Exec S A → Exec S B → Exec S B
m >> k = m >>= λ _. k

-- `try: m finally: cleanup`: an exception of the cleanup takes the place of the outcome.
abbrev pub finally {ℓ κ μ} : {S : Type ℓ} {A : Type κ} {B : Type μ} → Exec S A → Exec S B → Exec S A
finally m cleanup = attempt m >>= λ outcome. cleanup >> lift outcome

-- Inversion of a block that returned: its first part returned, and the rest went on from there.
pub bind-returns {ℓ κ μ} :
    {S : Type ℓ} {A : Type κ} {B : Type μ} (m : Exec S A) (f : A → Exec S B) (s : S) {b : B}
    → ((m >>= f) s).0 ≡ ok b
    → (a : A) × ((m s).0 ≡ ok a) × ((m >>= f) s ≡ f a (m s).1)
bind-returns {S} {A} {B} m f s {b} h = go (m s).0 (m s).1 refl h
  where
    go :
        (r : Result A) (s' : S)
        → (m s).0 ≡ r
        → (elim r as (λ _. Result B × S) [ ok a ↦ f a s' | err e ↦ (err e, s') ]).0 ≡ ok b
        → (a : A) × ((m s).0 ≡ ok a)
          × (elim r as (λ _. Result B × S) [ ok a ↦ f a s' | err e ↦ (err e, s') ] ≡ f a s')
    go (ok a) s' e h = (a, e, refl)
    go (err x) s' e h = cc

module _ {ℓ κ μ} {S : Type ℓ} {A : Type κ} {B : Type μ} where
  -- What holds of a block: it is shown for a first part that raises, and for the rest after one
  -- that returns.
  pub bind-ends {ν} :
      (P : Result B × S → Type ν) (m : Exec S A) (f : A → Exec S B) (s : S)
      → ((e : PyError) → (m s).0 ≡ err e → P (err e, (m s).1))
      → ((a : A) → (m s).0 ≡ ok a → P (f a (m s).1))
      → P ((m >>= f) s)
  bind-ends P m f s raised returned = go (m s).0 (m s).1 raised returned
    where
      go :
          (r : Result A) (t : S)
          → ((e : PyError) → r ≡ err e → P (err e, t))
          → ((a : A) → r ≡ ok a → P (f a t))
          → P (elim r as (λ _. Result B × S) [ ok a ↦ f a t | err e ↦ (err e, t) ])
      go (ok a) t raised returned = returned a refl
      go (err e) t raised returned = raised e refl

  -- A block of which the first part returns goes on from there.
  pub bind-after :
      (m : Exec S A) (f : A → Exec S B) (s : S) (a : A) → (m s).0 ≡ ok a → (m >>= f) s ≡ f a (m s).1
  bind-after m f s a returned = go (m s).0 (m s).1 returned
    where
      go :
          (r : Result A) (t : S)
          → r ≡ ok a
          → elim r as (λ _. Result B × S) [ ok b ↦ f b t | err e ↦ (err e, t) ] ≡ f a t
      go (ok b) t h = ap (λ b. f b t) (ok-injective b a h)
      go (err e) t h = cc

  -- Two blocks agree whose first parts do, and whose rests do after a first part that returns.
  pub bind-agrees :
      (m n : Exec S A) (f g : A → Exec S B) (s : S)
      → m s ≡ n s
      → ((a : A) → (n s).0 ≡ ok a → f a (n s).1 ≡ g a (n s).1)
      → (m >>= f) s ≡ (n >>= g) s
  bind-agrees m n f g s same after = ap (rest f) same ∙ go (n s).0 (n s).1 after
    where
      rest : (A → Exec S B) → Result A × S → Result B × S
      rest h x = elim x.0 [ ok a ↦ h a x.1 | err e ↦ (err e, x.1) ]

      go :
          (r : Result A) (t : S)
          → ((a : A) → r ≡ ok a → f a t ≡ g a t)
          → elim r as (λ _. Result B × S) [ ok a ↦ f a t | err e ↦ (err e, t) ]
            ≡ elim r as (λ _. Result B × S) [ ok a ↦ g a t | err e ↦ (err e, t) ]
      go (ok a) t after = after a refl
      go (err e) t after = refl
