-- ===== src/Base/Effects.antt =====
-- Code whose only state is the list of the calls that it has made to the outside, newest first, with
-- the rules for what such code adds to the list.
use mathlib.Core.Path.{◌≡◌, refl, sym, ap, ◌∙◌}
use mathlib.Core.Bool.{Bool, true, false}
use mathlib.Core.List.{List, [], ◌∷◌}
use infra_lab.Base.Checks.{if◌then◌else◌}
use infra_lab.Base.Lists.{keep_if}
use infra_lab.Base.Raise.{PyError, Result, ok, ok-injective}
use infra_lab.Base.Stateful.{Exec, pure, raise, lift, attempt, ◌>>=◌, bind-ends}

abbrev pub Calls : Type 0 → Type 0 → Type 0
Calls C A = Exec (List C) A

module _ {C A : Type 0} where
  -- Makes a call, of which the reply depends on the calls before it.
  abbrev pub ask : C → (List C → Result A) → Calls C A
  ask call reply made = (reply made, call ∷ made)

-- `m` makes no call that `p` selects, whether it returns or raises.
pub record Spares {C A : Type 0} (p : C → Bool) (m : Calls C A) : Type 0 where
  pub at : (made : List C) → keep_if p (m made).1 ≡ keep_if p made

-- Of the calls that `p` selects, the new list is the old one, or has the call `c` in front of it.
pub data Extends {C : Type 0} (p : C → Bool) (c : C) (old new : List C) : Type 0 where
  kept : keep_if p new ≡ keep_if p old → Extends p c old new
  added : keep_if p new ≡ c ∷ keep_if p old → Extends p c old new

-- `m` makes at most one call that `p` selects, and that is `c`.
pub record AtMost {C A : Type 0} (p : C → Bool) (c : C) (m : Calls C A) : Type 0 where
  pub at : (made : List C) → Extends p c made (m made).1

module _ {C A : Type 0} {p : C → Bool} where
  pub Spares-pure : (a : A) → Spares p (pure {S = List C} a)
  Spares-pure a = record { at = λ made. refl }

  pub Spares-raise : (e : PyError) → Spares p (raise {S = List C} {A = A} e)
  Spares-raise e = record { at = λ made. refl }

  pub Spares-lift : (r : Result A) → Spares p (lift {S = List C} r)
  Spares-lift r = record { at = λ made. refl }

  pub Spares-ask :
      (call : C) (reply : List C → Result A) → p call ≡ false → Spares p (ask call reply)
  Spares-ask call reply h = record { at = λ made. rw h refl }

  pub Spares-attempt : (m : Calls C A) → Spares p m → Spares p (attempt m)
  Spares-attempt m q = record { at = λ made. q.at made }

  pub Spares-if :
      (b : Bool) (m n : Calls C A) → Spares p m → Spares p n → Spares p (if b then m else n)
  Spares-if true m n q r = q
  Spares-if false m n q r = r

module _ {C A B : Type 0} {p : C → Bool} where
  pub Spares-bind :
      (m : Calls C A) (f : A → Calls C B)
      → Spares p m
      → ((a : A) → Spares p (f a))
      → Spares p (m >>= f)
  Spares-bind m f q r = record {
    at = λ made.
        bind-ends (λ x. keep_if p x.1 ≡ keep_if p made) m f made (λ e raised. q.at made)
          (λ a returned. (r a).at (m made).1 ∙ q.at made);
  }

module _ {C A : Type 0} {p : C → Bool} where
  -- Of a branch whose test fails, the branch that is taken.
  pub Spares-if_false :
      (b : Bool) (m n : Calls C A) → b ≡ false → Spares p n → Spares p (if b then m else n)
  Spares-if_false true m n h q = cc
  Spares-if_false false m n h q = q

module _ {C A B : Type 0} {p : C → Bool} where
  -- Of a block whose first part, if it returns, returns a known value.
  pub Spares-known :
      (m : Calls C A) (f : A → Calls C B) (a : A)
      → ((made : List C) → (m made).0 ≡ ok a)
      → Spares p m
      → Spares p (f a)
      → Spares p (m >>= f)
  Spares-known m f a known q r = record {
    at = λ made.
        bind-ends (λ x. keep_if p x.1 ≡ keep_if p made) m f made (λ e raised. q.at made)
          (λ b returned.
            rw (← ok-injective a b (sym (known made) ∙ returned)) (r.at (m made).1) ∙ q.at made);
  }

pub ruleset spare_rules =
    (Spares-pure, Spares-raise, Spares-lift, Spares-ask, Spares-attempt, Spares-if, Spares-bind)

module _ {C A : Type 0} {p : C → Bool} {c : C} where
  pub AtMost-Spares : (m : Calls C A) → Spares p m → AtMost p c m
  AtMost-Spares m q = record { at = λ made. kept (q.at made) }

  pub AtMost-ask : (reply : List C → Result A) → p c ≡ true → AtMost p c (ask c reply)
  AtMost-ask reply h = record { at = λ made. added (rw h refl) }

  pub AtMost-if :
      (b : Bool) (m n : Calls C A) → AtMost p c m → AtMost p c n → AtMost p c (if b then m else n)
  AtMost-if true m n q r = q
  AtMost-if false m n q r = r

module _ {C : Type 0} {p : C → Bool} {c : C} where
  extend_after : (x y z : List C) → keep_if p y ≡ keep_if p x → Extends p c y z → Extends p c x z
  extend_after x y z e (kept h) = kept (h ∙ e)
  extend_after x y z e (added h) = added (h ∙ ap (λ l. c ∷ l) e)

  extend_before : (x y z : List C) → Extends p c x y → keep_if p z ≡ keep_if p y → Extends p c x z
  extend_before x y z (kept h) e = kept (e ∙ h)
  extend_before x y z (added h) e = added (e ∙ h)

module _ {C A B : Type 0} {p : C → Bool} {c : C} where
  pub spare_first :
      (m : Calls C A) (f : A → Calls C B)
      → Spares p m
      → ((a : A) → AtMost p c (f a))
      → AtMost p c (m >>= f)
  spare_first m f q r = record {
    at = λ made.
        bind-ends (λ x. Extends p c made x.1) m f made (λ e raised. kept (q.at made))
          (λ a returned.
            extend_after made (m made).1 (f a (m made).1).1 (q.at made) ((r a).at (m made).1));
  }

  pub spare_rest :
      (m : Calls C A) (f : A → Calls C B)
      → AtMost p c m
      → ((a : A) → Spares p (f a))
      → AtMost p c (m >>= f)
  spare_rest m f q r = record {
    at = λ made.
        bind-ends (λ x. Extends p c made x.1) m f made (λ e raised. q.at made)
          (λ a returned.
            extend_before made (m made).1 (f a (m made).1).1 (q.at made) ((r a).at (m made).1));
  }

module _ {C : Type 0} where
  same_head :
      (p q : C → Bool) (c : C) (l : List C)
      → (p c ≡ true → q c ≡ true)
      → keep_if p (keep_if q l) ≡ keep_if p l
      → keep_if p (keep_if q (c ∷ l)) ≡ keep_if p (c ∷ l)
  same_head p q c l within same = go (p c) (q c) within refl refl
    where
      go :
          (b d : Bool)
          → (b ≡ true → d ≡ true)
          → p c ≡ b
          → q c ≡ d
          → keep_if p (if d then c ∷ keep_if q l else keep_if q l)
            ≡ (if b then c ∷ keep_if p l else keep_if p l)
      go true true h e d = rw (e, same) refl
      go true false h e d = let wrong : false ≡ true = h refl in cc
      go false true h e d = rw (e, same) refl
      go false false h e d = same

  keep_if_within :
      (p q : C → Bool) (l : List C)
      → ((c : C) → p c ≡ true → q c ≡ true)
      → keep_if p (keep_if q l) ≡ keep_if p l
  keep_if_within p q [] within = refl
  keep_if_within p q (c ∷ l) within = same_head p q c l (within c) (keep_if_within p q l within)

module _ {C A : Type 0} where
  -- Code that makes no call of a kind makes none of a narrower kind.
  pub Spares-within :
      (p q : C → Bool) (m : Calls C A)
      → ((c : C) → p c ≡ true → q c ≡ true)
      → Spares q m
      → Spares p m
  Spares-within p q m within spares = record {
    at = λ made.
        sym (keep_if_within p q (m made).1 within)
        ∙ (ap (keep_if p) (spares.at made) ∙ keep_if_within p q made within);
  }

pub ruleset at_most_rules =
    (spare_rules, AtMost-if, AtMost-Spares, AtMost-ask, spare_first, spare_rest)
