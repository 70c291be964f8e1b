-- ===== src/Trader/Tools/Format.antt =====
-- What the reads of market data in tools.py make of a reply: `get_movers`, `get_most_actives`,
-- `get_snapshots`, `get_bars` and `get_news`. A reply is any JSON value, and what raises on one raises
-- here.
use infra_lab.Base.{
  ℕ, zero, suc, String, Bool, ◌&&◌, some, List, [], ◌∷◌, if◌then◌else◌, take, Result, ok, err,
  type_error, attribute_error, ltb, ◌==◌, str_eq,
}
use infra_lab.Base.Raise.{◌>>=◌}
use infra_lab.Base.Int.{ℤ, pos, negsuc}
use infra_lab.Base.Text.{◌<>◌, upper, take_text}
use infra_lab.Base.Number.{Number, of_ℕ, divide, truthy}
use infra_lab.Base.Json.{
  Json, Items, Fields, none_left, item, end, field, null, bool, num, str, arr, obj, member,
}
use infra_lab.Base.Dynamic.{or_null, get_or, dict_of, iterate, item_of, list_items}
use infra_lab.Trader.Store.{last}

-- `text.replace(" ", "")`
pub without_spaces : String → String
without_spaces String.[] = String.[]
without_spaces (String.◌∷◌ c s) =
    let rest = without_spaces s in if Prim.Native.Char.code c == 32 then rest else String.◌∷◌ c rest

abbrev pub timeframes : List String
timeframes = "1Min" ∷ "5Min" ∷ "15Min" ∷ "30Min" ∷ "1Hour" ∷ "1Day" ∷ []

abbrev pub timeframe_text : String
timeframe_text = "timeframe must be one of ['15Min', '1Day', '1Hour', '1Min', '30Min', '5Min']"

abbrev pub columns : List String
columns = "t" ∷ "o" ∷ "h" ∷ "l" ∷ "c" ∷ "v" ∷ []

-- `max(1, min(n, 500))`
abbrev pub clamp : ℤ → ℕ
clamp (pos zero) = 1
clamp (pos (suc n)) = if ltb 500 (suc n) then 500 else suc n
clamp (negsuc n) = 1

module _ {F : Type 0} where
  abbrev pub items_of : List (Json F) → Items F
  items_of [] = none_left
  items_of (v ∷ vs) = item v (items_of vs)

  -- `value.get(key)`
  unfoldable pub get : String → Json F → Result (Json F)
  get key v = do d ← dict_of v; ok (or_null (member key d))

  -- `[f(x) for x in values]`
  unfoldable pub each : (Json F → Result (Json F)) → List (Json F) → Result (List (Json F))
  each f [] = ok []
  each f (v ∷ vs) = do x ← f v; rest ← each f vs; ok (x ∷ rest)

  -- `{key: f(value) for key, value in d.items()}`
  unfoldable pub each_member : (Json F → Result (Json F)) → Fields F → Result (Fields F)
  each_member f end = ok end
  each_member f (field k v d) = do x ← f v; rest ← each_member f d; ok (field k x rest)

  -- `symbols.upper().replace(" ", "")`
  unfoldable pub symbols_of : Json F → Result String
  unfolding upper without_spaces
  symbols_of (str s) = ok (without_spaces (upper s))
  symbols_of v = err attribute_error

  -- `for x in data.get(key, [])`
  unfoldable pub listed : String → Json F → Result (List (Json F))
  unfolding iterate
  listed key v = do d ← dict_of v; iterate (get_or key (arr none_left) d)

  -- `[row.get("symbol") for row in data.get("most_actives", [])]`
  unfoldable pub active_symbols : Json F → Result (Json F)
  unfolding each listed get
  active_symbols found = do
    rows ← listed "most_actives" found
    symbols ← each (get "symbol") rows
    ok (arr (items_of symbols))

  cells : List String → Json F → Result (List (Json F))
  cells [] bar = ok []
  cells (key ∷ keys) bar = do v ← item_of key bar; rest ← cells keys bar; ok (v ∷ rest)

  -- `[b["t"], b["o"], b["h"], b["l"], b["c"], b["v"]]`
  row_of : Json F → Result (Json F)
  unfolding cells item_of
  row_of bar = do vs ← cells columns bar; ok (arr (items_of vs))

  -- The last `limit` rows of the bars of a symbol.
  unfoldable pub rows_of : ℕ → Json F → Result (Json F)
  unfolding each row_of iterate last
  rows_of limit bars = do
    vs ← iterate bars
    rows ← each row_of vs
    ok (arr (items_of (last limit rows)))

  abbrev texts_in : List String → List (Json F)
  texts_in [] = []
  texts_in (s ∷ ss) = str s ∷ texts_in ss

module _ {F : Type 0} ⦃number : Number F⦄ where
  -- The start, the end and the feed of `get_bars`, for the dates before the day and its opening time.
  unfoldable pub window :
      (ℕ → Result String) → Result String → String → Json F → Result (Json F × (Json F × String))
  window days_before opening timeframe start =
      if str_eq timeframe "1Day"
      then (do
        yesterday ← days_before 1
        first ←
            if truthy (some start)
            then ok start
            else (do d ← days_before 45; ok (str (d <> "T00:00:00Z")))
        ok (first, (str (yesterday <> "T23:59:59Z"), "sip")))
      else do time ← opening; ok ((if truthy (some start) then start else str time), (null, "iex"))

  -- `value or {}`
  abbrev pub or_dict : Json F → Json F
  or_dict v = if truthy (some v) then v else obj end

  -- `(value.get(outer) or {}).get(key)`
  unfoldable pub get_in : String → String → Json F → Result (Json F)
  unfolding get
  get_in outer key v = do found ← get outer v; get key (or_dict found)

  -- A value that is computed with, or compared with a number.
  abbrev pub number_of : Json F → Result F
  number_of (num x) = ok x
  number_of (bool b) = ok (of_ℕ (if b then 1 else 0))
  number_of v = err type_error

  -- `a or b`
  abbrev pub or_else : Json F → Json F → Json F
  or_else a b = if truthy (some a) then a else b

  -- `(price / prev - 1) * 100`
  unfoldable pub change_of : F → F → Result F
  change_of price prev = do
    ratio ← divide price prev
    ok (number.mul (number.sub ratio (of_ℕ 1)) (of_ℕ 100))

  -- `round((price / prev - 1) * 100, 2) if price and prev else None`
  change_or_null : Json F → Json F → Result (Json F)
  unfolding change_of
  change_or_null price prev =
      if truthy (some price) && truthy (some prev)
      then (do
        p ← number_of price
        q ← number_of prev
        change ← change_of p q
        ok (num (number.round2 change)))
      else ok null

  -- `(m.get("price") or 0) >= floor`
  is_dear : F → Json F → Result Bool
  unfolding get
  is_dear floor mover = do
    price ← get "price" mover
    x ← number_of (or_else price (num (of_ℕ 0)))
    ok (number.le floor x)

  dear_ones : F → List (Json F) → Result (List (Json F))
  unfolding is_dear
  dear_ones floor [] = ok []
  dear_ones floor (m ∷ ms) = do
    dear ← is_dear floor m
    rest ← dear_ones floor ms
    ok (if dear then m ∷ rest else rest)

  -- The movers of both sides at or above the minimum price.
  unfoldable pub dear_movers : F → Json F → Result (Json F)
  unfolding dear_ones listed
  dear_movers floor found = do
    gainers ← listed "gainers" found
    up ← dear_ones floor gainers
    losers ← listed "losers" found
    down ← dear_ones floor losers
    ok (obj (field "gainers" (arr (items_of up)) (field "losers" (arr (items_of down)) end)))

  -- The compact form of a snapshot.
  unfoldable pub compact : Json F → Result (Json F)
  unfolding get_in change_or_null get
  compact snap = do
    prev ← get_in "prevDailyBar" "c" snap
    found ← get "dailyBar" snap
    latest ← get_in "latestTrade" "p" snap
    price ← if truthy (some latest) then ok latest else get "c" (or_dict found)
    change ← change_or_null price prev
    daily ← dict_of (or_dict found)
    minute ← get_in "minuteBar" "c" snap
    ok (
        obj (
          field "price" price (
            field "prev_close" prev (
              field "change_pct" change (
                field "day_open" (or_null (member "o" daily)) (
                  field "day_high" (or_null (member "h" daily)) (
                    field "day_low" (or_null (member "l" daily)) (
                      field "day_volume" (or_null (member "v" daily))
                        (field "minute_close" minute end)))))))))

  unfoldable pub compact_all : Json F → Result (Json F)
  unfolding compact each_member
  compact_all found = do d ← dict_of found; out ← each_member compact d; ok (obj out)

  -- The rows of all symbols, with the names of the columns.
  unfoldable pub bars_table : ℕ → Json F → Result (Json F)
  unfolding rows_of each_member get
  bars_table limit found = do
    bars ← get "bars" found
    d ← dict_of (or_dict bars)
    out ← each_member (rows_of limit) d
    ok (obj (field "columns" (arr (items_of (texts_in columns))) (field "bars" (obj out) end)))

  -- `(n.get("summary") or "")[:300]`
  summary_of : Json F → Result (Json F)
  unfolding take_text
  summary_of (str s) = ok (str (take_text 300 s))
  summary_of (arr vs) = ok (arr (items_of (take 300 (list_items vs))))
  summary_of v = err type_error

  unfoldable pub headline_of : Json F → Result (Json F)
  unfolding summary_of get
  headline_of n = do
    headline ← get "headline" n
    found ← get "summary" n
    summary ← summary_of (or_else found (str ""))
    symbols ← get "symbols" n
    created_at ← get "created_at" n
    source ← get "source" n
    ok (
        obj (
          field "headline" headline (
            field "summary" summary (
              field "symbols" symbols
                (field "created_at" created_at (field "source" source end))))))

  unfoldable pub headlines : Json F → Result (Json F)
  unfolding headline_of each listed
  headlines found = do
    news ← listed "news" found
    out ← each headline_of news
    ok (arr (items_of out))
