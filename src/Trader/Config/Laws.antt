-- ===== src/Trader/Config/Laws.antt =====
-- `Params.from_dict` of guardrails.py accepts a config exactly when every limit is in it and sane.
use infra_lab.Base.{
  String, ◌≡◌, refl, ◌↔◌, true, some, List, [], ◌∷◌, arith, lookup, Result, ok, str_eq, inl, inr,
  >>=-eq-ok, Bool-cases, eq_iff, ok-injective, sym, ◌∙◌,
}
use Prim.Native.Nat.{◌^◌}
use mathlib.Core.Path.{subst}
use infra_lab.Base.Number.{Number, of_ℕ}
use infra_lab.Base.Json.{Fields, obj, num, member}
use infra_lab.Trader.Config.{
  Clock, Params, bounds, read_limit, read_limits, build, from_dict, parse_time, or_bad_time,
}

or_bad_time-eq-ok : (r : Result Clock) (t : Clock) → or_bad_time r ≡ ok t → r ≡ ok t
unfolding or_bad_time
or_bad_time-eq-ok r t h = ground arith

module _ {F : Type 0} ⦃number : Number F⦄ where
  -- The config has the number `v` under the key, between the two bounds.
  abbrev pub IsSane : Fields F → String → F × F → F → Type 0
  IsSane raw key (low, high) v =
      (member key raw ≡ some (num v)) × (number.le low v ≡ true) × (number.le v high ≡ true)

  read_limit-IsSane :
      (raw : Fields F) (key : String) (low high : F) {v : F}
      → read_limit key low high (member key raw) ≡ ok v
      → IsSane raw key (low, high) v
  unfolding read_limit
  read_limit-IsSane raw key low high h = ground arith

  -- Each bound's key has a sane number in the config, which is its value.
  abbrev pub Reads : Fields F → List (String × (F × F)) → List (String × F) → Type 0
  Reads raw bs values =
      (key : String) (b : F × F)
      → lookup key bs ≡ some b
      → (v : F) × (lookup key values ≡ some v) × IsSane raw key b v

  Reads-cons :
      (raw : Fields F) (bs : List (String × (F × F))) (values : List (String × F)) (j : String)
      (low high value : F)
      → IsSane raw j (low, high) value
      → Reads raw bs values
      → Reads raw ((j, (low, high)) ∷ bs) ((j, value) ∷ values)
  Reads-cons raw bs values j low high value sane reads key b at = elim (Bool-cases (str_eq j key)) [
    | inl same ↦ (value, rw same refl, ground (arith, eq_iff j key))
    | inr differ ↦ let (v, e, w) = reads key b (ground arith) in (v, rw differ e, w)
  ]

  pub read_limits-Reads :
      (bs : List (String × (F × F))) (raw : Fields F) (values : List (String × F))
      → read_limits bs raw ≡ ok values
      → Reads raw bs values
  unfolding read_limits
  read_limits-Reads [] raw values h = λ key b at. cc
  read_limits-Reads ((j, (low, high)) ∷ rest) raw values h =
      let (value, read, more) = >>=-eq-ok (read_limit j low high (member j raw)) _ h in
      let (others, reads, done) = >>=-eq-ok (read_limits rest raw) _ more in
      let whole : (j, value) ∷ others ≡ values = cc done in
      subst (Reads raw ((j, (low, high)) ∷ rest)) whole (
        Reads-cons raw rest others j low high value (read_limit-IsSane raw j low high read)
          (read_limits-Reads rest raw others reads))

  -- Every limit of `p` is the sane number that the config has under its key, and its time is the
  -- config's.
  pub record IsRead (raw : Fields F) (p : Params F) : Type 0 where
    pub max_positions : IsSane raw "max_positions" (of_ℕ 1, of_ℕ 20) p.max_positions
    pub max_position_pct :
        IsSane raw "max_position_pct" (number.decimal 1 3, number.decimal 5 1) p.max_position_pct
    pub risk_pct : IsSane raw "risk_pct" (number.decimal 1 4, number.decimal 2 2) p.risk_pct
    pub max_stop_pct :
        IsSane raw "max_stop_pct" (number.decimal 1 3, number.decimal 10 2) p.max_stop_pct
    pub reward_r : IsSane raw "reward_r" (number.decimal 5 1, number.decimal 10 0) p.reward_r
    pub daily_loss_halt_pct :
        IsSane raw "daily_loss_halt_pct"
          (number.decimal 1 3, number.decimal 10 2)
          p.daily_loss_halt_pct
    pub min_price : IsSane raw "min_price" (number.decimal 1 0, number.decimal 10000 0) p.min_price
    pub min_avg_volume : IsSane raw "min_avg_volume" (of_ℕ 1, of_ℕ (10 ^ 10)) p.min_avg_volume
    pub min_avg_dollar_volume :
        IsSane raw "min_avg_dollar_volume" (of_ℕ 1, of_ℕ (10 ^ 13)) p.min_avg_dollar_volume
    pub max_entry_deviation_pct :
        IsSane raw "max_entry_deviation_pct"
          (number.decimal 1 4, number.decimal 5 2)
          p.max_entry_deviation_pct
    pub max_orders_per_run : IsSane raw "max_orders_per_run" (of_ℕ 1, of_ℕ 50) p.max_orders_per_run
    pub max_orders_per_day : IsSane raw "max_orders_per_day" (of_ℕ 1, of_ℕ 500) p.max_orders_per_day
    pub max_turns : IsSane raw "max_turns" (of_ℕ 1, of_ℕ 100) p.max_turns
    pub max_run_cost_usd :
        IsSane raw "max_run_cost_usd" (number.decimal 1 2, number.decimal 25 0) p.max_run_cost_usd
    pub last_entry_time : parse_time (member "last_entry_time" raw) ≡ ok p.last_entry_time

  -- With every key read, `cls(**values)` returns limits, and they are those that were read.
  pub build_total :
      (raw : Fields F) (values : List (String × F))
      → Reads raw bounds values
      → (p : Clock → Params F) × ((at : Clock) → build values at ≡ ok (p at))
        × ((at : Clock) → parse_time (member "last_entry_time" raw) ≡ ok at → IsRead raw (p at))
  unfolding build bounds
  build_total raw values reads =
      let (a, ea, sa) = reads "max_positions" _ refl in
      let (b, eb, sb) = reads "max_position_pct" _ refl in
      let (c, ec, sc) = reads "risk_pct" _ refl in
      let (d, ed, sd) = reads "max_stop_pct" _ refl in
      let (e, ee, se) = reads "reward_r" _ refl in
      let (f, ef, sf) = reads "daily_loss_halt_pct" _ refl in
      let (g, eg, sg) = reads "min_price" _ refl in
      let (i, ei, si) = reads "min_avg_volume" _ refl in
      let (j, ej, sj) = reads "min_avg_dollar_volume" _ refl in
      let (k, ek, sk) = reads "max_entry_deviation_pct" _ refl in
      let (l, el, sl) = reads "max_orders_per_run" _ refl in
      let (m, em, sm) = reads "max_orders_per_day" _ refl in
      let (n, en, sn) = reads "max_turns" _ refl in
      let (o, eo, so) = reads "max_run_cost_usd" _ refl in
      (
        (λ at. record {
          max_positions = a;
          max_position_pct = b;
          risk_pct = c;
          max_stop_pct = d;
          reward_r = e;
          daily_loss_halt_pct = f;
          last_entry_time = at;
          min_price = g;
          min_avg_volume = i;
          min_avg_dollar_volume = j;
          max_entry_deviation_pct = k;
          max_orders_per_run = l;
          max_orders_per_day = m;
          max_turns = n;
          max_run_cost_usd = o;
        }),
        (λ at. simp (ea, eb, ec, ed, ee, ef, eg, ei, ej, ek, el, em, en, eo)),
        (λ at time. record {
          max_positions = sa;
          max_position_pct = sb;
          risk_pct = sc;
          max_stop_pct = sd;
          reward_r = se;
          daily_loss_halt_pct = sf;
          min_price = sg;
          min_avg_volume = si;
          min_avg_dollar_volume = sj;
          max_entry_deviation_pct = sk;
          max_orders_per_run = sl;
          max_orders_per_day = sm;
          max_turns = sn;
          max_run_cost_usd = so;
          last_entry_time = time;
        }),
      )

  from_dict_sound : (raw : Fields F) (p : Params F) → from_dict (obj raw) ≡ ok p → IsRead raw p
  unfolding from_dict
  from_dict_sound raw p h =
      let (values, read, more) = >>=-eq-ok (read_limits bounds raw) _ h in
      let (at, time, built) =
        >>=-eq-ok (or_bad_time (parse_time (member "last_entry_time" raw))) _ more in
      let (limits, builds, reads) =
        build_total raw values (read_limits-Reads bounds raw values read) in
      subst (IsRead raw) (ok-injective _ p (sym (builds at) ∙ built))
        (reads at (or_bad_time-eq-ok (parse_time (member "last_entry_time" raw)) at time))

  from_dict_complete : (raw : Fields F) (p : Params F) → IsRead raw p → from_dict (obj raw) ≡ ok p
  unfolding from_dict
  from_dict_complete raw p r =
      simp
        (
          r.max_positions.0, r.max_positions.1, r.max_positions.2, r.max_position_pct.0,
          r.max_position_pct.1, r.max_position_pct.2, r.risk_pct.0, r.risk_pct.1, r.risk_pct.2,
          r.max_stop_pct.0, r.max_stop_pct.1, r.max_stop_pct.2, r.reward_r.0, r.reward_r.1,
          r.reward_r.2, r.daily_loss_halt_pct.0, r.daily_loss_halt_pct.1, r.daily_loss_halt_pct.2,
          r.min_price.0, r.min_price.1, r.min_price.2, r.min_avg_volume.0, r.min_avg_volume.1,
          r.min_avg_volume.2, r.min_avg_dollar_volume.0, r.min_avg_dollar_volume.1,
          r.min_avg_dollar_volume.2, r.max_entry_deviation_pct.0, r.max_entry_deviation_pct.1,
          r.max_entry_deviation_pct.2, r.max_orders_per_run.0, r.max_orders_per_run.1,
          r.max_orders_per_run.2, r.max_orders_per_day.0, r.max_orders_per_day.1,
          r.max_orders_per_day.2, r.max_turns.0, r.max_turns.1, r.max_turns.2, r.max_run_cost_usd.0,
          r.max_run_cost_usd.1, r.max_run_cost_usd.2, r.last_entry_time,
        )
        refl

  -- A config object is accepted with limits `p` exactly when it has, under every key of `_BOUNDS`, the
  -- number that `p` has there, within the key's bounds, and a time HH:MM, which is that of `p`.
  pub from_dict_iff : (raw : Fields F) (p : Params F) → (from_dict (obj raw) ≡ ok p) ↔ IsRead raw p
  from_dict_iff raw p = (from_dict_sound raw p, from_dict_complete raw p)
