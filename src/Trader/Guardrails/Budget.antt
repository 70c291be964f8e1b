-- ===== src/Trader/Guardrails/Budget.antt =====
-- `size_bracket` of guardrails.py: the size of a position against the risk and the notional limit, which
-- the code takes at the prices before they are rounded.
use infra_lab.Base.{
  ◌≡◌, refl, Bool, true, false, not, ◌&&◌, Option, none, some, arith, if◌then◌else◌, Result, ok,
  >>=-eq-ok, ok-injective, String,
}
use infra_lab.Base.Int.{ℤ, pos, ◌≤ℤ◌, min_ℤ}
use infra_lab.Base.Number.{Number, Lawful, of_ℕ, divide}
use infra_lab.Trader.Config.{Params}
use infra_lab.Trader.Guardrails.{Sizing, Verdict, enter, refuse, size_bracket, sized, times}

min-le_left : (a b : ℤ) → min_ℤ a b ≤ℤ a
min-le_left a b = ground arith

min-le_right : (a b : ℤ) → min_ℤ a b ≤ℤ b
min-le_right a b = ground arith

module _ {F : Type 0} ⦃number : Number F⦄ where
  -- `share * equity / price` exists, and `qty` is at most that.
  abbrev pub IsAtMost : ℤ → Option F → F → F → Type 0
  IsAtMost qty start_equity share price =
      (start : F) × (quotient : F) × (start_equity ≡ some start)
      × (divide (number.mul start share) price ≡ ok quotient)
      × (number.le (number.of_ℤ qty) quotient ≡ true)

  -- What a sized order promises.
  pub record IsWithinBudget (params : Params F) (start_equity : Option F) (entry stop : F)
      (s : Sizing F) : Type 0 where
    pub positive_stop : number.lt (of_ℕ 0) stop ≡ true
    pub stop_below : number.lt stop entry ≡ true
    pub narrow :
        (stop_pct : F) × (divide (number.sub entry stop) entry ≡ ok stop_pct)
        × (number.lt params.max_stop_pct stop_pct ≡ false)
    pub one_share : pos 1 ≤ℤ s.qty
    pub entry_sent : s.entry ≡ number.round2 entry
    pub stop_sent : s.stop ≡ number.round2 stop
    pub risk : IsAtMost s.qty start_equity params.risk_pct (number.sub entry stop)
    pub notional : IsAtMost s.qty start_equity params.max_position_pct entry

  -- A guard of the code did not fire, where a sizing came out.
  pub passed :
      (b : Bool) (reason : String) (rest : Result (Verdict F)) {s : Sizing F}
      → (if b then ok (refuse reason) else rest) ≡ ok (enter s)
      → (b ≡ false) × (rest ≡ ok (enter s))
  passed true reason rest h = cc
  passed false reason rest h = (refl, h)

  -- The sizing that comes out has the number of shares that went in, which is at least one.
  sized-qty :
      (params : Params F) (entry stop per_share_risk : F) (qty : ℤ) (s : Sizing F)
      → ok (sized params entry stop per_share_risk qty) ≡ ok (enter s)
      → (s.qty ≡ qty)
        × (pos 1 ≤ℤ qty)
        × (s.entry ≡ number.round2 entry)
        × (s.stop ≡ number.round2 stop)
  sized-qty params entry stop per_share_risk qty s h = ground arith

  IsAtMost-floor :
      Lawful F
      → (start_equity : Option F) (share price product quotient : F) (n qty : ℤ)
      → times start_equity share ≡ ok product
      → divide product price ≡ ok quotient
      → number.floor quotient ≡ ok n
      → qty ≤ℤ n
      → IsAtMost qty start_equity share price
  IsAtMost-floor laws none share price product quotient n qty t d f le = cc
  IsAtMost-floor laws (some start) share price product quotient n qty t d f le = (
    start,
    quotient,
    refl,
    rw (ok-injective _ _ t) d,
    laws.le_below qty n quotient le (laws.floor_le quotient n f),
  )

  -- From lawful numbers: whatever `size_bracket` sizes is for an entry and a stop that, before they are
  -- rounded, have a positive stop below the entry, no wider than the limit; it has at least one share,
  -- and no more shares than the risk share of the equity pays per share at risk, nor than the position
  -- share of the equity pays at the entry, both at the prices before they are rounded. The entry and
  -- the stop that are sent are these two, rounded to cents; the limits are not stated for them.
  pub size_bracket-IsWithinBudget :
      Lawful F
      → (params : Params F) (start_equity : Option F) (entry stop : F) (s : Sizing F)
      → size_bracket params start_equity entry stop ≡ ok (enter s)
      → IsWithinBudget params start_equity entry stop s
  unfolding size_bracket
  size_bracket-IsWithinBudget laws params start_equity entry stop s h =
      let (prices, h1) =
        passed (not (number.lt (of_ℕ 0) entry && number.lt (of_ℕ 0) stop && number.lt stop entry)) _
          _ h in
      let (stop_pct, pct, h2) = >>=-eq-ok (divide (number.sub entry stop) entry) _ h1 in
      let (narrow, h3) = passed (number.lt params.max_stop_pct stop_pct) _ _ h2 in
      let (risk, e1, h4) = >>=-eq-ok (times start_equity params.risk_pct) _ h3 in
      let (risk_quotient, e2, h5) = >>=-eq-ok (divide risk (number.sub entry stop)) _ h4 in
      let (by_risk, e3, h6) = >>=-eq-ok (number.floor risk_quotient) _ h5 in
      let (share, e4, h7) = >>=-eq-ok (times start_equity params.max_position_pct) _ h6 in
      let (share_quotient, e5, h8) = >>=-eq-ok (divide share entry) _ h7 in
      let (by_notional, e6, h9) = >>=-eq-ok (number.floor share_quotient) _ h8 in
      let (whole, one, entry_sent, stop_sent) =
        sized-qty params entry stop _ (min_ℤ by_risk by_notional) s h9 in
      record {
        positive_stop = ground arith;
        stop_below = ground arith;
        narrow = (stop_pct, pct, narrow);
        one_share = rw whole one;
        entry_sent = entry_sent;
        stop_sent = stop_sent;
        risk = rw whole (
            IsAtMost-floor laws start_equity _ _ risk risk_quotient by_risk _ e1 e2 e3
              (min-le_left by_risk by_notional));
        notional = rw whole (
            IsAtMost-floor laws start_equity _ _ share share_quotient by_notional _ e4 e5 e6
              (min-le_right by_risk by_notional));
      }
