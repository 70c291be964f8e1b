-- ===== src/Trader/Tools/Screen/Tests.antt =====
-- Examples for the reads of market data.
use infra_lab.Base.{◌≡◌, refl, some, List, [], ◌∷◌, ok}
use infra_lab.Base.Int.{pos, ◌+ℤ◌, ◌-ℤ◌, ◌*ℤ◌}
use infra_lab.Base.Fixed.{Fixed, fixed_number}
use infra_lab.Base.Json.{end, field, null, num, str, arr, obj, item, none_left}
use infra_lab.Trader.Tools.Format.{dear_movers}
use infra_lab.Trader.Tools.Screen.{Row, judge}

abbrev rows : List (Row Fixed)
rows =
    record { change_pct = pos 10000; members = str "A" }
    ∷ record { change_pct = pos 30000; members = str "B" }
    ∷ record { change_pct = pos 20000; members = str "C" }
    ∷ []

-- Of the movers, one is too cheap.
keeps_dear :
    dear_movers (pos 50000) (
      obj (
        field "gainers"
          (arr (
            item
              (obj (field "price" (num (pos 40000)) end))
              (item (obj (field "price" (num (pos 60000)) end)) none_left)))
          end))
    ≡ ok (
        obj (
          field "gainers"
            (arr (item (obj (field "price" (num (pos 60000)) end)) none_left))
            (field "losers" (arr none_left) end)))
unfolding dear_movers fixed_number
keeps_dear = refl

-- A rise from 100 to 103 on the day, above the threshold of 1 per cent.
is_candidate :
    judge
      (λ text. ok "2026-01-02")
      "2026-01-02"
      (pos 50000)
      (λ v. ok (pos 10000))
      null
      (field "ABC" (obj (field "c" (num (pos 1000000)) (field "v" (num (pos 20000000)) end))) end)
      "ABC"
      (obj (
        field "latestTrade"
          (obj (field "t" (str "2026-01-02T15:00:00Z") (field "p" (num (pos 1030000)) end)))
          end))
    ≡ ok (
        some (record {
          change_pct = pos 30000;
          members = obj (
              field "symbol" (str "ABC") (
                field "price" (num (pos 1030000)) (
                  field "prev_close" (num (pos 1000000)) (
                    field "change_pct"
                      (num (pos 30000))
                      (field "prev_day_dollar_volume" (num (pos 2000000000)) end)))));
        }))
unfolding judge fixed_number ◌+ℤ◌ ◌-ℤ◌ ◌*ℤ◌
is_candidate = refl
