-- ===== src/Trader/Tools/Screen.antt =====
-- The screening of `scan_universe` of tools.py: the batches, the prior bars, the test of each snapshot
-- and the order of the rows.
pub mod Sorted
mod Tests
use infra_lab.Base.{
  ℕ, zero, suc, ◌-◌, ◌+◌, String, Bool, false, ◌||◌, not, Option, none, some, List, [], ◌∷◌, ◌++◌,
  if◌then◌else◌, length, take, is_empty, Result, ok, err, type_error, value_error, attribute_error,
  key_error, str_eq, ◌==◌,
}
use infra_lab.Base.Raise.{◌>>=◌}
use infra_lab.Base.Int.{ℤ, pos, negsuc}
use infra_lab.Base.Text.{◌<>◌, join}
use infra_lab.Base.Number.{Number, truthy}
use infra_lab.Base.Json.{Json, Fields, item, end, field, num, str, arr, obj, member}
use infra_lab.Base.Dynamic.{or_null, dict_of, item_of, texts_of, list_items, characters}
use infra_lab.Trader.Tools.Format.{get, or_dict, number_of, change_of}

-- `SCAN_BATCH`
abbrev pub scan_batch : ℕ
scan_batch = 100

-- Whether a date that was read is the day; a text that is no time is not.
same_day : String → Result String → Result Bool
same_day day (ok traded_on) = ok (str_eq traded_on day)
same_day day (err value_error) = ok false
same_day day (err e) = err e

-- `text.replace("Z", "+00:00")`
with_offset : String → String
with_offset String.[] = String.[]
with_offset (String.◌∷◌ c s) =
    let rest = with_offset s in
    if Prim.Native.Char.code c == 90 then "+00:00" <> rest else String.◌∷◌ c rest

-- A candidate with the change that it is sorted by.
pub record Row (F : Type 0) : Type 0 where
  pub change_pct : F
  pub members : Json F

module _ {F : Type 0} where
  -- The rest of the batches, with the items of the one that is filled and the room that is left in it.
  fill : ℕ → List (Json F) → List (Json F) → List (List (Json F))
  fill room batch [] = if is_empty batch then [] else batch ∷ []
  fill zero batch (v ∷ vs) = batch ∷ fill (scan_batch - 1) (v ∷ []) vs
  fill (suc room) batch (v ∷ vs) = fill room (batch ++ (v ∷ [])) vs

  -- `symbols[i:][:SCAN_BATCH]` for each `i` of the range
  unfoldable pub batches : List (Json F) → List (List (Json F))
  unfolding fill
  batches symbols = fill scan_batch [] symbols

  -- `",".join(batch)`
  unfoldable pub batch_text : List (Json F) → Result String
  unfolding texts_of join
  batch_text batch = do names ← texts_of batch; ok (join "," names)

  -- A value that is sliced and has a length.
  abbrev pub sequence : Json F → Result (List (Json F))
  sequence (arr vs) = ok (list_items vs)
  sequence (str s) = ok (characters s)
  sequence v = err type_error

  final : Json F → List (Json F) → Json F
  final v [] = v
  final v (x ∷ xs) = final x xs

  -- `bars[-1]` of bars that are true
  last_bar : Json F → Result (Json F)
  unfolding final
  last_bar (arr (item v vs)) = ok (final v (list_items vs))
  last_bar (obj d) = err key_error
  last_bar (str s) = elim (characters s) [ [] ↦ err type_error | v ∷ vs ↦ ok (final v vs) ]
  last_bar v = err type_error

module _ {F : Type 0} ⦃number : Number F⦄ where
  -- `prior[sym] = bars[-1]` for the symbols with bars; what is set later is found first.
  keep_last : Fields F → Fields F → Result (Fields F)
  unfolding last_bar
  keep_last prior end = ok prior
  keep_last prior (field sym bars d) =
      if truthy (some bars)
      then (do bar ← last_bar bars; keep_last (field sym bar prior) d)
      else keep_last prior d

  -- The prior bars after the reply for a batch.
  unfoldable pub add_prior : Fields F → Json F → Result (Fields F)
  unfolding keep_last get
  add_prior prior found = do bars ← get "bars" found; d ← dict_of (or_dict bars); keep_last prior d

  module _ (date_of : String → Result String) (day : String) where
    traded_today : Json F → Result Bool
    unfolding same_day with_offset
    traded_today (str text) = same_day day (date_of (with_offset text))
    traded_today v = err attribute_error

    -- `_is_fresh_trade`
    unfoldable pub is_fresh_trade : Json F → Result Bool
    unfolding traded_today
    is_fresh_trade ts = if not (truthy (some ts)) then ok false else traded_today ts

    module _ (min_price : F) (min_change : Json F → Result F) (threshold : Json F) where
      -- The row of a symbol whose change is large enough.
      row_of : String → Json F → F → Json F → F → Json F → Result (Option (Row F))
      unfolding change_of item_of
      row_of sym price p prev q prior_bar = do
        change ← change_of p q
        least ← min_change threshold
        if number.lt change least then ok none else do
          volume ← item_of "v" prior_bar
          v ← number_of volume
          dollars ← number.round (number.mul v q)
          ok (
              some (record {
                change_pct = number.round2 change;
                members = obj (
                    field "symbol" (str sym) (
                      field "price" price (
                        field "prev_close" prev (
                          field "change_pct" (num (number.round2 change))
                            (field "prev_day_dollar_volume" (num (number.of_ℤ dollars)) end)))));
              }))

      -- A price and a close that are true, the price not below the minimum.
      priced : String → Json F → Json F → Json F → Result (Option (Row F))
      unfolding row_of
      priced sym price prev prior_bar =
          if not (truthy (some price)) || not (truthy (some prev)) then ok none else do
            p ← number_of price
            if number.lt p min_price
                then ok none
                else do q ← number_of prev; row_of sym price p prev q prior_bar

      -- One round of the loop over the snapshots.
      unfoldable pub judge : Fields F → String → Json F → Result (Option (Row F))
      unfolding priced is_fresh_trade item_of get
      judge prior sym snap =
          let prior_bar = or_null (member sym prior) in
          if not (truthy (some prior_bar)) then ok none else do
            trade ← get "latestTrade" snap
            ts ← get "t" (or_dict trade)
            fresh ← is_fresh_trade ts
            if not fresh then ok none else do
              price ← get "p" (or_dict trade)
              prev ← item_of "c" prior_bar
              priced sym price prev prior_bar

      abbrev with_row : Option (Row F) → List (Row F) → List (Row F)
      with_row none rows = rows
      with_row (some row) rows = row ∷ rows

      -- The rows of the snapshots of a batch.
      unfoldable pub judge_all : Fields F → Fields F → Result (List (Row F))
      unfolding judge
      judge_all prior end = ok []
      judge_all prior (field sym snap d) = do
        found ← judge prior sym snap
        rest ← judge_all prior d
        ok (with_row found rest)

  -- `rows.sort(key=change_pct, reverse=True)`, which keeps the order of equal ones
  insert_row : Row F → List (Row F) → List (Row F)
  insert_row r [] = r ∷ []
  insert_row r (s ∷ rows) =
      let rest = insert_row r rows in
      if number.lt r.change_pct s.change_pct then s ∷ rest else r ∷ s ∷ rows

  unfoldable pub sort_rows : List (Row F) → List (Row F)
  unfolding insert_row
  sort_rows [] = []
  sort_rows (r ∷ rows) = insert_row r (sort_rows rows)

  abbrev pub count_fields : Fields F → ℕ
  count_fields end = 0
  count_fields (field k v d) = 1 + count_fields d

  -- `rows[: n]`
  unfoldable pub first_rows : ℤ → List (Row F) → List (Row F)
  first_rows (pos n) rows = take n rows
  first_rows (negsuc n) rows = take (length rows - (n + 1)) rows

  abbrev pub row_members : List (Row F) → List (Json F)
  row_members [] = []
  row_members (r ∷ rows) = r.members ∷ row_members rows
