-- ===== src/Trader/Api.antt =====
-- The methods of `AlpacaClient` in alpaca_api.py: the request that each of them makes, over the retries
-- of `_request`. How parameters are encoded is an argument.
use infra_lab.Base.{
  ℕ, ◌+◌, ◌≤◌, ◌≡◌, refl, String, Bool, true, false, Option, none, some, List, [], ◌∷◌, count_if,
}
use infra_lab.Base.Effects.{Calls}
use infra_lab.Base.Text.{◌<>◌}
use infra_lab.Base.Number.{Number, of_ℕ}
use infra_lab.Base.Json.{Json, num, str}
use infra_lab.Trader.Request
use infra_lab.Trader.Request.{Outcome, attempt_request, attempt_request-count, is_request}

-- `TRADING_URL`
abbrev pub trading_url : String
trading_url = "https://paper-api.alpaca.markets"

-- `DATA_URL`
abbrev pub data_url : String
data_url = "https://data.alpaca.markets"

pub data Method : Type 0 where
  get post patch delete : Method

-- What changes the account: all but the GET requests.
abbrev pub is_change : Method → Bool
is_change get = false
is_change m = true

-- The arguments of `_request`. A parameter that is None is `none`.
pub record Shape (F : Type 0) : Type 0 where
  pub method : Method
  pub base : String
  pub path : String
  pub params : List (String × Option (Json F))
  pub body : Option (Json F)
  pub retries : ℕ

-- The methods of the client, with their arguments.
pub data Api (F : Type 0) : Type 0 where
  account clock positions : Api F
  calendar orders asset : String → Api F
  submit_order : Json F → Api F
  replace_order : String → Json F → Api F
  cancel_order close_position order_by_client_id : String → Api F
  cancel_all_orders close_all_positions : Api F
  -- symbols and feed
  snapshots : String → String → Api F
  -- symbols, timeframe, start, end, limit, feed
  bars : String → String → String → Option String → F → String → Api F
  movers most_actives : F → Api F
  -- symbols, limit, start
  news : String → F → String → Api F

module _ {F : Type 0} where
  -- `_trading`, for a client of the paper account
  pub trading : Method → String → List (String × Option (Json F)) → Option (Json F) → ℕ → Shape F
  trading method path params body retries = record {
    method = method;
    base = trading_url;
    path = path;
    params = params;
    body = body;
    retries = retries;
  }

  -- `_data`
  pub market_data : String → List (String × Option (Json F)) → Shape F
  market_data path params = record {
    method = get;
    base = data_url;
    path = path;
    params = params;
    body = none;
    retries = 2;
  }

  abbrev text_or_none : Option String → Option (Json F)
  text_or_none none = none
  text_or_none (some s) = some (str s)

  -- The parameters that are not None.
  pub clean : List (String × Option (Json F)) → List (String × Json F)
  clean [] = []
  clean ((k, none) ∷ rest) = clean rest
  clean ((k, some v) ∷ rest) = (k, v) ∷ clean rest

  -- The URL, with `urlencode` as an argument.
  unfoldable pub url_of : (List (String × Json F) → String) → Shape F → String
  unfolding clean
  url_of encode shape = elim shape.params [
    | [] ↦ shape.base <> shape.path
    | p ∷ ps ↦ shape.base <> (shape.path <> ("?" <> encode (clean (p ∷ ps))))
  ]

module _ {F : Type 0} ⦃number : Number F⦄ where
  unfoldable pub shape_of : Api F → Shape F
  unfolding trading market_data
  shape_of account = trading get "/v2/account" [] none 2
  shape_of clock = trading get "/v2/clock" [] none 2
  shape_of (calendar day) =
      trading get "/v2/calendar" (("start", some (str day)) ∷ ("end", some (str day)) ∷ []) none 2
  shape_of positions = trading get "/v2/positions" [] none 2
  shape_of (orders after) =
      trading get "/v2/orders"
        (("status", some (str "all"))
          ∷ ("nested", some (str "true"))
          ∷ ("limit", some (num (of_ℕ 100)))
          ∷ ("after", some (str after))
          ∷ [])
        none 2
  shape_of (asset symbol) = trading get ("/v2/assets/" <> symbol) [] none 2
  shape_of (submit_order body) = trading post "/v2/orders" [] (some body) 0
  shape_of (replace_order order_id body) =
      trading patch ("/v2/orders/" <> order_id) [] (some body) 0
  shape_of (cancel_order order_id) = trading delete ("/v2/orders/" <> order_id) [] none 0
  shape_of cancel_all_orders = trading delete "/v2/orders" [] none 0
  shape_of close_all_positions =
      trading delete "/v2/positions" (("cancel_orders", some (str "true")) ∷ []) none 0
  shape_of (close_position symbol) = trading delete ("/v2/positions/" <> symbol) [] none 0
  shape_of (order_by_client_id client_order_id) =
      trading get "/v2/orders:by_client_order_id"
        (("client_order_id", some (str client_order_id)) ∷ []) none 2
  shape_of (snapshots symbols feed) =
      market_data "/v2/stocks/snapshots"
        (("symbols", some (str symbols)) ∷ ("feed", some (str feed)) ∷ [])
  shape_of (bars symbols timeframe start end limit feed) = market_data "/v2/stocks/bars" (
      ("symbols", some (str symbols))
      ∷ ("timeframe", some (str timeframe))
      ∷ ("start", some (str start))
      ∷ ("end", text_or_none end)
      ∷ ("limit", some (num limit))
      ∷ ("feed", some (str feed))
      ∷ ("adjustment", some (str "split"))
      ∷ ("sort", some (str "asc"))
      ∷ [])
  shape_of (movers top) =
      market_data "/v1beta1/screener/stocks/movers" (("top", some (num top)) ∷ [])
  shape_of (most_actives top) =
      market_data "/v1beta1/screener/stocks/most-actives"
        (("by", some (str "volume")) ∷ ("top", some (num top)) ∷ [])
  shape_of (news symbols limit start) = market_data "/v1beta1/news" (
      ("symbols", some (str symbols))
      ∷ ("limit", some (num limit))
      ∷ ("start", some (str start))
      ∷ ("sort", some (str "desc"))
      ∷ [])

  -- A call of a method: the network answers each request by its shape and the calls before it.
  unfoldable pub perform :
      (Shape F → List Request.Call → Outcome F) → Api F → Calls Request.Call (Json F)
  unfolding shape_of
  perform network api = attempt_request (network (shape_of api)) (shape_of api).retries 0

  changes_without_retry :
      (api : Api F) → is_change (shape_of api).method ≡ true → (shape_of api).retries ≡ 0
  unfolding shape_of trading market_data
  changes_without_retry account h = cc
  changes_without_retry clock h = cc
  changes_without_retry (calendar day) h = cc
  changes_without_retry positions h = cc
  changes_without_retry (orders after) h = cc
  changes_without_retry (asset symbol) h = cc
  changes_without_retry (order_by_client_id id) h = cc
  changes_without_retry (snapshots symbols feed) h = cc
  changes_without_retry (bars symbols timeframe start end limit feed) h = cc
  changes_without_retry (movers top) h = cc
  changes_without_retry (most_actives top) h = cc
  changes_without_retry (news symbols limit start) h = cc
  changes_without_retry _ h = refl

  -- A method of the client that is not a GET makes at most one request, whatever the network answers:
  -- nothing that changes the account is sent twice.
  pub perform-once :
      (network : Shape F → List Request.Call → Outcome F) (api : Api F) (made : List Request.Call)
      → is_change (shape_of api).method ≡ true
      → count_if (is_request (network (shape_of api))) (perform network api made).1
        ≤ count_if (is_request (network (shape_of api))) made + 1
  unfolding perform
  perform-once network api made change =
      rw (changes_without_retry api change)
        (attempt_request-count (network (shape_of api)) 0 0 made)
