-- ===== src/Trader/Tools/Screen/Sorted.antt =====
-- The order of the candidates of `scan_universe` of tools.py.
use infra_lab.Base.{◌≡◌, true, false, List, [], ◌∷◌}
use infra_lab.Base.Number.{Number}
use infra_lab.Trader.Tools.Screen.{Row}

-- Of two numbers of which one is below the other, the other is not below the first.
abbrev pub IsAsymmetric : (F : Type 0) ⦃number : Number F⦄ → Type 0
IsAsymmetric F ⦃number⦄ = (a b : F) → number.lt a b ≡ true → number.lt b a ≡ false

module _ {F : Type 0} ⦃number : Number F⦄ where
  -- The head of the rows, if any, has no larger change than `r`.
  pub Leads : Row F → List (Row F) → Type 0
  Leads r [] = Unit
  Leads r (s ∷ rows) = number.lt r.change_pct s.change_pct ≡ false

  -- No row is followed by one with a larger change.
  pub IsSorted : List (Row F) → Type 0
  unfolding Leads
  IsSorted [] = Unit
  IsSorted (r ∷ rows) = Leads r rows × IsSorted rows
