-- ===== src/Memory/Excluded.antt =====
-- Wings that are excluded from the backup of scripts/mempalace_remote_backup.py.
use infra_lab.Base.{
  ℕ, zero, suc, String, ◌≡◌, refl, Bool, true, false, ◌||◌, Option, none, some, List, [], ◌∷◌,
  contains, str_eq, Result, ok, err, runtime,
}
use infra_lab.Base.Stateful.{pure, raise, lift}
use infra_lab.Base.Effects.{
  Calls, Spares, spare_rules, Spares-bind, Spares-ask, Spares-lift, Spares-attempt,
}
use infra_lab.Base.Text.{◌<>◌}
use infra_lab.Base.Json.{Json, Fields, end, field, str, obj, member, is_str}
use infra_lab.Memory.Client.{
  Server, Call, post, sleep, Network, one_attempt, after_last, after_attempt, attempts, rpc,
  tool_call, load_text, at_key, object_of,
}
use infra_lab.Memory.Paging.{
  page_arguments, next_page, after_ids, after_page, pages, list_wing_drawer_ids,
}
use infra_lab.Memory.Wings.{apart_from_included}
use infra_lab.Memory.Backup.{
  Backup, exclude_wings, included_wings, skipped_wings, manifest_of, get_wings, fetch_full_drawer,
  fetch_all, after_list, backup_wing, after_wing, backup_wings, backup_all, main,
}

-- Whether a POST lists the drawers of `wing`.
abbrev pub wing_of : Json ℕ → Option (Json ℕ)
wing_of (obj d) = member "wing" d
wing_of v = none

abbrev arguments_of : Json ℕ → Option (Json ℕ)
arguments_of (obj d) = member "arguments" d
arguments_of v = none

abbrev lists_in : String → Option (Json ℕ) → Bool
lists_in wing none = false
lists_in wing (some arguments) = is_str wing (wing_of arguments)

abbrev pub lists_wing : String → Call → Bool
lists_wing wing (post server method params) = lists_in wing (arguments_of params)
lists_wing wing (sleep seconds) = false

or_first : (p q : Bool) → (p || q) ≡ false → p ≡ false
or_first true q h = h
or_first false q h = refl

or_second : (p q : Bool) → (p || q) ≡ false → q ≡ false
or_second true q h = cc
or_second false q h = h

module _ (w : Network) (server : Server) (wing : String) where
  checked-Spares :
      (found : Option (Json ℕ)) (body : Fields ℕ)
      → Spares {A = Json ℕ} (lists_wing wing) (elim found [
        | some e ↦ raise (runtime ("MCP error: " <> w.show_json e))
        | none ↦ lift (at_key "result" body)
      ])
  checked-Spares none body = search spare_rules
  checked-Spares (some e) body = search spare_rules

  module _ (params : Json ℕ)
      (apart : lists_wing wing (post server "tools/call" params) ≡ false) where
    one_attempt-Spares : Spares (lists_wing wing) (one_attempt w server "tools/call" params)
    unfolding one_attempt
    one_attempt-Spares =
        Spares-bind _ _
          (Spares-ask (post server "tools/call" params) (λ h. w.post h server "tools/call" params)
            apart)
          (λ parsed.
            Spares-bind _ _ (Spares-lift (object_of parsed))
              (λ body. checked-Spares (member "error" body) body))

    after_last-Spares : (r : Result (Json ℕ)) → Spares (lists_wing wing) (after_last w r)
    unfolding after_last
    after_last-Spares (ok result) = search spare_rules
    after_last-Spares (err e) = search spare_rules

    after_attempt-Spares :
        (left : ℕ) (again : Calls Call (Json ℕ)) (r : Result (Json ℕ))
        → Spares (lists_wing wing) again
        → Spares (lists_wing wing) (after_attempt w left again r)
    unfolding after_attempt
    after_attempt-Spares left again (ok result) q = search spare_rules
    after_attempt-Spares left again (err e) q = search spare_rules depth 8

    attempts-Spares :
        (left : ℕ) → Spares (lists_wing wing) (attempts w left server "tools/call" params)
    unfolding attempts
    attempts-Spares zero = search (spare_rules, one_attempt-Spares, after_last-Spares)
    attempts-Spares (suc left) =
        Spares-bind _ _
          (Spares-attempt (one_attempt w server "tools/call" params) one_attempt-Spares)
          (λ r.
            after_attempt-Spares (suc left) (attempts w left server "tools/call" params) r
              (attempts-Spares left))

    rpc-Spares : Spares (lists_wing wing) (rpc w server "tools/call" params)
    unfolding rpc
    rpc-Spares = attempts-Spares 2

  load_text-Spares : (result : Json ℕ) → Spares (lists_wing wing) (load_text w result)
  unfolding load_text
  load_text-Spares result = search spare_rules depth 16

  tool_call-Spares :
      (name : String) (arguments : Json ℕ)
      → is_str wing (wing_of arguments) ≡ false
      → Spares (lists_wing wing) (tool_call w server name arguments)
  unfolding tool_call
  tool_call-Spares name arguments apart =
      Spares-bind _ _
        (rpc-Spares (obj (field "name" (str name) (field "arguments" arguments end))) apart)
        load_text-Spares

  get_wings-Spares : Spares (lists_wing wing) (get_wings w server)
  unfolding get_wings
  get_wings-Spares = search (spare_rules, tool_call-Spares) depth 8

  fetch_full_drawer-Spares :
      (id : String) → Spares (lists_wing wing) (fetch_full_drawer w server id)
  unfolding fetch_full_drawer
  fetch_full_drawer-Spares id = search (spare_rules, tool_call-Spares) depth 8

  fetch_all-Spares :
      (own : String) (ids : List String) (b : Backup)
      → Spares (lists_wing wing) (fetch_all w server own ids b)
  unfolding fetch_all
  fetch_all-Spares own [] b = search spare_rules
  fetch_all-Spares own (id ∷ ids) b =
      search (spare_rules, fetch_full_drawer-Spares, fetch_all-Spares own ids) depth 8

  after_list-Spares :
      (own : String) (b : Backup) (r : Result (Option (List String)))
      → Spares (lists_wing wing) (after_list w server own b r)
  unfolding after_list
  after_list-Spares own b (ok none) = search spare_rules
  after_list-Spares own b (ok (some ids)) = search (spare_rules, fetch_all-Spares)
  after_list-Spares own b (err (runtime message)) = search spare_rules
  after_list-Spares own b (err _) = search spare_rules

  module _ (own : String) (apart : str_eq own wing ≡ false) where
    next_page-Spares :
        (offset : ℕ) (ids : List String)
        (again : ℕ → List String → Calls Call (Option (List String)))
        → ((next : ℕ) (more : List String) → Spares (lists_wing wing) (again next more))
        → (page : Fields ℕ) (drawers : List (Json ℕ))
        → Spares (lists_wing wing) (next_page w server own offset ids again page drawers)
    unfolding next_page after_ids
    next_page-Spares offset ids again q page [] = search spare_rules
    next_page-Spares offset ids again q page (v ∷ vs) = search (spare_rules, q) depth 8

    after_page-Spares :
        (offset : ℕ) (ids : List String)
        (again : ℕ → List String → Calls Call (Option (List String)))
        → ((next : ℕ) (more : List String) → Spares (lists_wing wing) (again next more))
        → (found : Json ℕ)
        → Spares (lists_wing wing) (after_page w server own offset ids again found)
    unfolding after_page
    after_page-Spares offset ids again q found = search (spare_rules, next_page-Spares) depth 8

    pages-Spares :
        (fuel offset : ℕ) (ids : List String)
        → Spares (lists_wing wing) (pages w server own fuel offset ids)
    unfolding pages
    pages-Spares zero offset ids = search spare_rules
    pages-Spares (suc fuel) offset ids = search (
      spare_rules,
      tool_call-Spares "mempalace_list_drawers" (page_arguments own offset) apart,
      after_page-Spares offset ids (pages w server own fuel) (pages-Spares fuel),
    )

    backup_wing-Spares :
        (fuel : ℕ) (b : Backup) → Spares (lists_wing wing) (backup_wing w server fuel own b)
    unfolding backup_wing list_wing_drawer_ids
    backup_wing-Spares fuel b = search (spare_rules, pages-Spares, after_list-Spares)

  after_wing-Spares :
      (again : Backup → Calls Call (Option Backup)) (done : Option Backup)
      → ((b : Backup) → Spares (lists_wing wing) (again b))
      → Spares (lists_wing wing) (after_wing w server again done)
  unfolding after_wing
  after_wing-Spares again none q = search spare_rules
  after_wing-Spares again (some b) q = q b

  backup_wings-Spares :
      (fuel : ℕ) (wings : List String) (b : Backup)
      → contains wings wing ≡ false
      → Spares (lists_wing wing) (backup_wings w server fuel wings b)
  unfolding backup_wings
  backup_wings-Spares fuel [] b out = search spare_rules
  backup_wings-Spares fuel (own ∷ wings) b out =
      Spares-bind _ _ (backup_wing-Spares own (or_first _ _ out) fuel b) (λ done.
        after_wing-Spares (backup_wings w server fuel wings) done
          (λ next. backup_wings-Spares fuel wings next (or_second _ _ out)))

  backup_all-Spares :
      (fuel : ℕ) (exclude wings : List String)
      → contains exclude wing ≡ true
      → Spares (lists_wing wing) (backup_all w server fuel exclude wings)
  unfolding backup_all
  backup_all-Spares fuel exclude wings out =
      Spares-bind
        (backup_wings w server fuel (included_wings exclude wings)
          (record { records = []; warnings = [] }))
        (λ done.
          pure (
            manifest_of w server (included_wings exclude wings) (skipped_wings exclude wings) done))
        (backup_wings-Spares fuel (included_wings exclude wings) _
          (apart_from_included exclude wings wing out))
        (λ done. search spare_rules)

  -- A backup sends no request that lists the drawers of a wing that the options, or the environment,
  -- exclude, whatever the server answers and however the run ends.
  pub main-Spares :
      (fuel : ℕ) (given : List String) (raw : Option String)
      → contains (exclude_wings given raw) wing ≡ true
      → Spares (lists_wing wing) (main w server fuel given raw)
  unfolding main
  main-Spares fuel given raw out = search (spare_rules, get_wings-Spares, backup_all-Spares) depth 8
