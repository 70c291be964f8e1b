-- ===== src/Trader/Guardrails/Entry.antt =====
-- `evaluate_entry` of guardrails.py lets an order through exactly when all its rules hold.
use infra_lab.Base.{
  ◌<◌, ◌≡◌, refl, ◌↔◌, Bool, true, false, not, ◌||◌, none, some, arith, if◌then◌else◌, ok,
  >>=-eq-ok, length, contains, union, leb,
}
use infra_lab.Base.Number.{Number, of_ℕ}
use infra_lab.Base.Text.{is_blank}
use infra_lab.Trader.Config.{Params}
use infra_lab.Trader.Guardrails.{
  Sizing, enter, refuse, Reason, EntryFacts, micros, daily_halt, is_far, size_bracket, priced_entry,
  evaluate_entry,
}
use infra_lab.Trader.Guardrails.Budget.{passed}

-- The reason counts: it is there, and it is not the empty text.
abbrev pub is_given : Reason → Bool
is_given none = false
is_given (some reason) = not (is_blank reason)

module _ {F : Type 0} ⦃number : Number F⦄ where
  -- All the entry rules, for an order that is sized as `s`.
  pub record IsAllowed (params : Params F) (facts : EntryFacts F) (s : Sizing F) : Type 0 where
    pub open_market : facts.market_open ≡ true
    pub early : facts.now_et < micros params.last_entry_time
    pub no_halt : daily_halt params facts.start_equity facts.equity_now ≡ false
    pub not_held : contains facts.held_symbols facts.symbol ≡ false
    pub not_pending : contains facts.pending_symbols facts.symbol ≡ false
    pub room :
        number.le params.max_positions
          (of_ℕ (length (union facts.held_symbols facts.pending_symbols)))
        ≡ false
    pub run_room : number.le params.max_orders_per_run (of_ℕ facts.orders_run) ≡ false
    pub day_room : number.le params.max_orders_per_day (of_ℕ facts.orders_day) ≡ false
    pub tradable : is_given facts.universe_reason ≡ false
    pub near : is_far facts.entry facts.last_price params.max_entry_deviation_pct ≡ ok false
    pub fits : size_bracket params facts.start_equity facts.entry facts.stop ≡ ok (enter s)

  priced_entry_sound :
      (params : Params F) (facts : EntryFacts F) (s : Sizing F)
      → priced_entry params facts ≡ ok (enter s)
      → (is_far facts.entry facts.last_price params.max_entry_deviation_pct ≡ ok false)
        × (size_bracket params facts.start_equity facts.entry facts.stop ≡ ok (enter s))
  unfolding priced_entry
  priced_entry_sound params facts s h =
      let (far, e, h1) =
        >>=-eq-ok (is_far facts.entry facts.last_price params.max_entry_deviation_pct) _ h in
      let (near, h2) = passed far _ _ h1 in (rw (← near) e, h2)

  universe_sound :
      (params : Params F) (facts : EntryFacts F) (s : Sizing F) (reason : Reason)
      → elim reason [
        | some why ↦ if is_blank why then priced_entry params facts else ok (refuse why)
        | none ↦ priced_entry params facts
      ]
        ≡ ok (enter s)
      → (is_given reason ≡ false) × (priced_entry params facts ≡ ok (enter s))
  universe_sound params facts s none h = (refl, h)
  universe_sound params facts s (some why) h = ground arith

  evaluate_entry_sound :
      (params : Params F) (facts : EntryFacts F) (s : Sizing F)
      → evaluate_entry params facts ≡ ok (enter s)
      → IsAllowed params facts s
  unfolding evaluate_entry
  evaluate_entry_sound params facts s h =
      let (open_market, h1) = passed (not facts.market_open) _ _ h in
      let (early, h2) = passed (leb (micros params.last_entry_time) facts.now_et) _ _ h1 in
      let (no_halt, h3) = passed (daily_halt params facts.start_equity facts.equity_now) _ _ h2 in
      let (free, h4) =
        passed
          (contains facts.held_symbols facts.symbol || contains facts.pending_symbols facts.symbol)
          _ _ h3 in
      let (room, h5) =
        passed
          (number.le params.max_positions
            (of_ℕ (length (union facts.held_symbols facts.pending_symbols))))
          _ _ h4 in
      let (run_room, h6) =
        passed (number.le params.max_orders_per_run (of_ℕ facts.orders_run)) _ _ h5 in
      let (day_room, h7) =
        passed (number.le params.max_orders_per_day (of_ℕ facts.orders_day)) _ _ h6 in
      let (tradable, h8) = universe_sound params facts s facts.universe_reason h7 in
      let (near, fits) = priced_entry_sound params facts s h8 in
      record {
        open_market = ground arith;
        early = ground arith;
        no_halt = no_halt;
        not_held = ground arith;
        not_pending = ground arith;
        room = room;
        run_room = run_room;
        day_room = day_room;
        tradable = tradable;
        near = near;
        fits = fits;
      }

  evaluate_entry_complete :
      (params : Params F) (facts : EntryFacts F) (s : Sizing F)
      → IsAllowed params facts s
      → evaluate_entry params facts ≡ ok (enter s)
  unfolding evaluate_entry
  evaluate_entry_complete params facts s a =
      simp
        (
          a.open_market, before, a.no_halt, a.not_held, a.not_pending, a.room, a.run_room,
          a.day_room,
        )
        (ground (arith, a.tradable, priced))
    where
      before : leb (micros params.last_entry_time) facts.now_et ≡ false
      before = ground (arith, a.early)

      priced : priced_entry params facts ≡ ok (enter s)
      priced = rw (priced_entry, a.near) a.fits

  -- An order goes through, sized as `s`, exactly when the market is open, the time is before the last
  -- entry time, the day's loss is within its limit, the symbol is neither held nor pending, there is
  -- room for a position and for an order in this run and on this day, the universe rules give no
  -- reason, the entry is near the last price, and `size_bracket` gives `s`.
  pub evaluate_entry_iff :
      (params : Params F) (facts : EntryFacts F) (s : Sizing F)
      → (evaluate_entry params facts ≡ ok (enter s)) ↔ IsAllowed params facts s
  evaluate_entry_iff params facts s =
      (evaluate_entry_sound params facts s, evaluate_entry_complete params facts s)
