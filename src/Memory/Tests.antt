-- ===== src/Memory/Tests.antt =====
-- Examples for the memory scripts: a server that answers nothing but an error, and one with a drawer.
use infra_lab.Base.{
  ℕ, ◌≡◌, ◌≢◌, refl, sym, contains, true, arith, some, none, [], ◌∷◌, ok, err, runtime,
  ok-injective,
}
use infra_lab.Base.Effects.{Spares}
use infra_lab.Base.Json.{Json, null, num, str, arr, obj, item, none_left, field, end}
use infra_lab.Memory.Client.{
  Network, Server, Posts, rpc, rpc-Posts, tool_call, load_text, attempts, one_attempt,
  after_attempt, after_last, is_retried,
}
use infra_lab.Memory.Paging.{
  IsBounded, HasTotal, total_of, list_wing_drawer_ids, list_wing_drawer_ids-IsBounded,
}
use infra_lab.Memory.Backup.{exclude_wings, main}
use infra_lab.Memory.Excluded.{lists_wing, main-Spares}
use infra_lab.Memory.Migrate
use infra_lab.Memory.Migrate.{copy_all, Tally, total, migrate, copy_one, counted, migrate-total}

abbrev broken : Network
broken = record {
  post = λ h server method params. err (runtime "down");
  loads = λ text. ok null;
  show_json = λ v. "";
  show_error = λ e. "down";
}

abbrev personal : Server
personal = record { url = "https://mempalace.lintwiselabs.com/mcp"; token = "t" }

rpc-Posts_example : Posts 3 (rpc broken personal "tools/call" null)
rpc-Posts_example = rpc-Posts broken personal "tools/call" null

abbrev after_two : Tally
after_two = record { copied = 0; already_exists = 0; errors = 2 }

ends_with_errors :
    (migrate broken personal personal
      ("d1" ∷ "d2" ∷ [])
      (record { copied = 0; already_exists = 0; errors = 0 })
      []).0
    ≡ ok after_two
unfolding migrate copy_one counted tool_call load_text rpc attempts one_attempt after_attempt
    after_last is_retried
ends_with_errors = refl

migrate-total_example : total after_two ≡ 2
migrate-total_example =
    migrate-total broken personal personal ("d1" ∷ "d2" ∷ []) [] after_two ends_with_errors

-- A server with one drawer in the wing "w", which is on the first page.
abbrev page_of_one : Json ℕ
page_of_one = obj (
    field "drawers" (arr (item (obj (field "drawer_id" (str "d1") end)) none_left))
      (field "total" (num 1) end))

abbrev reply_of : Json ℕ
reply_of = obj (
    field "result"
      (obj (field "content" (arr (item (obj (field "text" (str "page") end)) none_left)) end)) end)

abbrev palace : Network
palace = record {
  post = λ h server method params. ok reply_of;
  loads = λ text. ok page_of_one;
  show_json = λ v. "";
  show_error = λ e. "down";
}

palace-IsBounded : IsBounded palace personal "w" 1
unfolding IsBounded tool_call load_text rpc attempts one_attempt after_attempt HasTotal total_of
palace-IsBounded made offset found answered =
    let same : page_of_one ≡ found = ok-injective page_of_one found answered in
    rw (sym same) (λ n h. let one : 1 ≡ n = ok-injective 1 n h in omega arith)

lists_one : (list_wing_drawer_ids palace personal "w" 2 []).0 ≡ ok (some ("d1" ∷ []))
unfolding list_wing_drawer_ids tool_call rpc attempts after_attempt one_attempt
lists_one = refl

list_wing_drawer_ids-IsBounded_example : (list_wing_drawer_ids palace personal "w" 2 []).0 ≢ ok none
list_wing_drawer_ids-IsBounded_example =
    list_wing_drawer_ids-IsBounded palace personal "w" 1 2 [] palace-IsBounded (omega arith)

excludes_big : contains (exclude_wings [] (some "big, old")) "big" ≡ true
unfolding exclude_wings
excludes_big = refl

main-Spares_example : Spares (lists_wing "big") (main palace personal 2 [] (some "big, old"))
main-Spares_example = main-Spares palace personal "big" 2 [] (some "big, old") excludes_big

-- A server whose every answer is a page of one drawer and that drawer at once.
abbrev page_and_drawer : Json ℕ
page_and_drawer = obj (
    field "drawers" (arr (item (obj (field "drawer_id" (str "d1") end)) none_left))
      (field "total" (num 1) (field "wing" (str "w") (field "room" (str "r") end))))

abbrev copying : Network
copying = record {
  post = λ h server method params. ok reply_of;
  loads = λ text. ok page_and_drawer;
  show_json = λ v. "";
  show_error = λ e. "down";
}
