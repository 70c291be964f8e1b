-- ===== src/Trader/Tools/Safety.antt =====
-- What `place_bracket_order` of tools.py may send to the broker.
use infra_lab.Base.{◌≡◌, String, Bool, List, ◌∷◌, keep_if, ok, Exec}
use infra_lab.Base.Number.{Number}
use infra_lab.Base.Json.{Json}
use infra_lab.Trader.Config.{Params}
use infra_lab.Trader.Guardrails.{Sizing, EntryFacts}
use infra_lab.Trader.Guardrails.Entry.{IsAllowed}
use infra_lab.Trader.World.{World, Call, Run, Order, submit_order}
use infra_lab.Trader.Tools.{Context, symbol_of, float_of}
use infra_lab.Trader.Tools.Quiet.{Quiet}
use infra_lab.Trader.Tools.DryRun.{is_trade}
use infra_lab.Trader.Tools.Orders.{client_order_id, gather_facts}

-- Of the calls that `p` selects, the new list is the old one, or has the call `c` in front of it.
pub data Grows {F : Type 0} (p : Call F → Bool) (c : Call F) (old new : List (Call F))
    : Type 0 where
  same : keep_if p new ≡ keep_if p old → Grows p c old new
  one : keep_if p new ≡ c ∷ keep_if p old → Grows p c old new

-- `m` makes at most one call that `p` selects, and that is `c`.
pub record Adds {F : Type 0} {A : Type 0} (p : Call F → Bool) (c : Call F) (m : Exec (Run F) A)
    : Type 0 where
  pub at : (s : Run F) → Grows p c s.history (m s).1.history

module _ {F : Type 0} ⦃number : Number F⦄ (w : World F) (prefix : String) (ctx : Context) where
  -- The order that `place_sized` sends.
  abbrev pub order_of : String → Sizing F → Order F
  order_of symbol sizing = record {
    symbol = symbol;
    sizing = sizing;
    client_order_id = client_order_id ctx symbol;
  }

  -- What `place_bracket_order` does to the calls that change something at the broker.
  pub data Placed (params : Params F) (raw raw_entry raw_stop : Json F) (s t : Run F) : Type 0 where
    nothing :
        keep_if is_trade t.history ≡ keep_if is_trade s.history
        → Placed params raw raw_entry raw_stop s t
    submitted :
        (symbol : String) (entry stop : F) (facts : EntryFacts F) (read : Run F) (sizing : Sizing F)
        → symbol_of raw ≡ ok symbol
        → float_of raw_entry ≡ ok entry
        → float_of raw_stop ≡ ok stop
        → gather_facts w prefix ctx params symbol entry stop s ≡ (ok facts, read)
        → IsAllowed params facts sizing
        → keep_if is_trade t.history
          ≡ submit_order (order_of symbol sizing) ∷ keep_if is_trade s.history
        → Placed params raw raw_entry raw_stop s t
