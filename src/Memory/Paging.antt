-- ===== src/Memory/Paging.antt =====
-- `list_wing_drawer_ids` of scripts/mempalace_migrate_wing.py and of scripts/mempalace_remote_backup.py,
-- which are the same: pages of drawers until the total is reached. The loop runs on fuel.
use infra_lab.Base.{
  ℕ, zero, suc, ◌+◌, ◌≤◌, ◌<◌, ◌≡◌, ◌≢◌, refl, arith, String, Bool, true, false, Option, none, some,
  List, [], ◌∷◌, ◌++◌, if◌then◌else◌, leb, length, Result, ok, err, type_error, attribute_error,
  ok-injective,
}
use infra_lab.Base.Stateful.{pure, lift, ◌>>=◌, bind-ends}
use infra_lab.Base.Effects.{Calls}
use infra_lab.Base.Json.{
  Json, Fields, Items, none_left, item, end, field, null, bool, num, str, arr, obj, member,
}
use infra_lab.Memory.Client.{Server, Call, Network, object_of, at_key, text_of, tool_call}

abbrev pub list_page_size : ℕ
list_page_size = 100

abbrev pub dict_of : Json ℕ → Result (Fields ℕ)
dict_of (obj d) = ok d
dict_of v = err attribute_error

abbrev list_of : Items ℕ → List (Json ℕ)
list_of none_left = []
list_of (item v vs) = v ∷ list_of vs

-- `page.get("drawers", [])`, empty where it is false
unfoldable pub drawers_of : Option (Json ℕ) → Result (List (Json ℕ))
drawers_of none = ok []
drawers_of (some null) = ok []
drawers_of (some (bool false)) = ok []
drawers_of (some (num zero)) = ok []
drawers_of (some (str String.[])) = ok []
drawers_of (some (obj end)) = ok []
drawers_of (some (arr vs)) = ok (list_of vs)
drawers_of (some v) = err type_error

-- `[d["drawer_id"] for d in drawers]`; an id that is no text counts as a TypeError.
unfoldable pub ids_of : List (Json ℕ) → Result (List String)
ids_of [] = ok []
ids_of (v ∷ vs) = elim (object_of v) [
  | err e ↦ err e
  | ok d ↦ elim (at_key "drawer_id" d) [
    | err e ↦ err e
    | ok found ↦ elim (text_of found) [
      | err e ↦ err e
      | ok id ↦ elim (ids_of vs) [ err e ↦ err e | ok rest ↦ ok (id ∷ rest) ]
    ]
  ]
]

-- `page.get("total", offset)`, as a number that is compared
unfoldable pub total_of : ℕ → Option (Json ℕ) → Result ℕ
total_of offset none = ok offset
total_of offset (some (num n)) = ok n
total_of offset (some (bool b)) = ok (if b then 1 else 0)
total_of offset (some v) = err type_error

abbrev pub page_arguments : String → ℕ → Json ℕ
page_arguments wing offset =
    obj (
      field "wing" (str wing)
        (field "limit" (num list_page_size) (field "offset" (num offset) end)))

module _ (w : Network) (server : Server) (wing : String) where
  -- The end of a round with the new ids, after which `next` drawers are known.
  unfoldable pub after_ids :
      ℕ
      → List String
      → (ℕ → List String → Calls Call (Option (List String)))
      → Fields ℕ
      → List String
      → Calls Call (Option (List String))
  unfolding total_of
  after_ids next ids again page new = do
    total ← lift (total_of next (member "total" page))
    if leb total next then pure (some (ids ++ new)) else again next (ids ++ new)

  -- The end of a round that had drawers; `again` is the next one.
  unfoldable pub next_page :
      ℕ
      → List String
      → (ℕ → List String → Calls Call (Option (List String)))
      → Fields ℕ
      → List (Json ℕ)
      → Calls Call (Option (List String))
  unfolding ids_of after_ids
  next_page offset ids again page [] = pure (some ids)
  next_page offset ids again page (v ∷ vs) =
      lift (ids_of (v ∷ vs)) >>= after_ids (offset + length (v ∷ vs)) ids again page

  unfoldable pub after_page :
      ℕ
      → List String
      → (ℕ → List String → Calls Call (Option (List String)))
      → Json ℕ
      → Calls Call (Option (List String))
  unfolding next_page drawers_of
  after_page offset ids again found = do
    page ← lift (dict_of found)
    drawers ← lift (drawers_of (member "drawers" page))
    next_page offset ids again page drawers

  -- The rounds from `offset` on, with the ids so far; `none` where the fuel is used up.
  unfoldable pub pages : ℕ → ℕ → List String → Calls Call (Option (List String))
  unfolding after_page
  pages zero offset ids = pure none
  pages (suc fuel) offset ids =
      tool_call w server "mempalace_list_drawers" (page_arguments wing offset)
      >>= after_page offset ids (pages fuel)

  unfoldable pub list_wing_drawer_ids : ℕ → Calls Call (Option (List String))
  unfolding pages
  list_wing_drawer_ids fuel = pages fuel 0 []

-- The result of a loop that has not run out of fuel.
Ended : Result (Option (List String)) → Type 0
Ended r = r ≢ ok none

-- Whether the total of a page, where it is a number, is at most `limit`.
unfoldable pub HasTotal : ℕ → Json ℕ → Type 0
HasTotal limit (obj page) = (n : ℕ) → total_of 0 (member "total" page) ≡ ok n → n ≤ limit
HasTotal limit found = Unit {0}

beyond : (m n : ℕ) → leb m n ≡ false → n < m
beyond m n h = ground arith

module _ (w : Network) (server : Server) (wing : String) (limit : ℕ) where
  -- The server never says that there are more than `limit` drawers.
  unfoldable pub IsBounded : Type 0
  IsBounded =
      (made : List Call) (offset : ℕ) (found : Json ℕ)
      → (tool_call w server "mempalace_list_drawers" (page_arguments wing offset) made).0 ≡ ok found
      → HasTotal limit found

  total_bounded :
      (offset n : ℕ) (found : Option (Json ℕ))
      → ((k : ℕ) → total_of 0 found ≡ ok k → k ≤ limit)
      → total_of offset found ≡ ok n
      → leb n offset ≡ false
      → n ≤ limit
  unfolding total_of
  total_bounded offset n none bounded h more =
      let same : offset ≡ n = ok-injective offset n h in
      absurd (omega (arith, beyond n offset more))
  total_bounded offset n (some (num k)) bounded h more = bounded n h
  total_bounded offset n (some (bool b)) bounded h more = bounded n h
  total_bounded offset n (some null) bounded h more = cc
  total_bounded offset n (some (str s)) bounded h more = cc
  total_bounded offset n (some (arr vs)) bounded h more = cc
  total_bounded offset n (some (obj d)) bounded h more = cc

  turn_page :
      (b : Bool) (total next : ℕ) (ids : List String)
      (again : ℕ → List String → Calls Call (Option (List String))) (made : List Call)
      → leb total next ≡ b
      → (leb total next ≡ false → Ended (again next ids made).0)
      → Ended ((if b then pure (some ids) else again next ids) made).0
  unfolding Ended
  turn_page true total next ids again made h rest = λ same. cc
  turn_page false total next ids again made h rest = rest h

  next_page-Ended :
      (offset : ℕ) (ids : List String) (again : ℕ → List String → Calls Call (Option (List String)))
      (page : Fields ℕ) (drawers : List (Json ℕ)) (made : List Call)
      → HasTotal limit (obj page)
      → ((next : ℕ) (more : List String) (t : List Call)
          → offset < next
          → next < limit
          → Ended (again next more t).0)
      → Ended (next_page w server wing offset ids again page drawers made).0
  unfolding next_page after_ids HasTotal Ended
  next_page-Ended offset ids again page [] made bounded rest = λ same. cc
  next_page-Ended offset ids again page (v ∷ vs) made bounded rest =
      let next = offset + length (v ∷ vs) in
      bind-ends (λ x. Ended x.0) (lift (ids_of (v ∷ vs)))
        (after_ids w server wing next ids again page) made (λ e raised same. cc)
        (λ new read.
          bind-ends (λ x. Ended x.0) (lift (total_of next (member "total" page)))
            (λ total. if leb total next then pure (some (ids ++ new)) else again next (ids ++ new))
            made (λ e raised same. cc)
            (λ total found.
              turn_page (leb total next) total next (ids ++ new) again made refl (λ more.
                rest next (ids ++ new) made (omega arith) (
                  omega (
                    arith,
                    total_bounded next total (member "total" page) bounded found more,
                    beyond total next more,
                  )))))

  after_page-Ended :
      (offset : ℕ) (ids : List String) (again : ℕ → List String → Calls Call (Option (List String)))
      (found : Json ℕ) (made : List Call)
      → HasTotal limit found
      → ((next : ℕ) (more : List String) (t : List Call)
          → offset < next
          → next < limit
          → Ended (again next more t).0)
      → Ended (after_page w server wing offset ids again found made).0
  unfolding after_page Ended
  after_page-Ended offset ids again (obj page) made bounded rest =
      bind-ends (λ x. Ended x.0) (lift (drawers_of (member "drawers" page)))
        (next_page w server wing offset ids again page) made (λ e raised same. cc)
        (λ drawers read. next_page-Ended offset ids again page drawers made bounded rest)
  after_page-Ended offset ids again null made bounded rest = λ same. cc
  after_page-Ended offset ids again (bool b) made bounded rest = λ same. cc
  after_page-Ended offset ids again (num n) made bounded rest = λ same. cc
  after_page-Ended offset ids again (str x) made bounded rest = λ same. cc
  after_page-Ended offset ids again (arr vs) made bounded rest = λ same. cc

  pages-Ended :
      (fuel offset : ℕ) (ids : List String) (made : List Call)
      → IsBounded
      → offset ≤ limit
      → limit < offset + fuel
      → Ended (pages w server wing fuel offset ids made).0
  unfolding pages IsBounded Ended
  pages-Ended zero offset ids made bounded low enough = absurd (omega arith)
  pages-Ended (suc fuel) offset ids made bounded low enough =
      bind-ends (λ x. Ended x.0)
        (tool_call w server "mempalace_list_drawers" (page_arguments wing offset))
        (after_page w server wing offset ids (pages w server wing fuel)) made (λ e raised same. cc)
        (λ found answered.
          after_page-Ended offset ids (pages w server wing fuel) found _
            (bounded made offset found answered)
            (λ next more t further within.
              pages-Ended fuel next more t bounded (omega arith) (omega arith)))

  -- Where the server never says that there are more than `limit` drawers: the loop over the pages ends
  -- with the ids or an exception, within more rounds than `limit`. It does not run on.
  pub list_wing_drawer_ids-IsBounded :
      (fuel : ℕ) (made : List Call)
      → IsBounded
      → limit < fuel
      → (list_wing_drawer_ids w server wing fuel made).0 ≢ ok none
  unfolding list_wing_drawer_ids Ended
  list_wing_drawer_ids-IsBounded fuel made bounded enough =
      pages-Ended fuel 0 [] made bounded (omega arith) (omega arith)
