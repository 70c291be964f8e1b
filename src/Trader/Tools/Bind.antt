-- ===== src/Trader/Tools/Bind.antt =====
-- The table of `call` of tools.py: the method for a name, with the keywords of `handler(**args)` bound
-- to its parameters, and the defaults of those that are left out.
use infra_lab.Base.{
  ℕ, String, Bool, true, ◌&&◌, Option, none, some, List, [], ◌∷◌, if◌then◌else◌, contains, lookup,
}
use infra_lab.Base.Number.{Number, of_ℕ, truthy}
use infra_lab.Base.Json.{Json, Fields, end, field, null, num, str, obj, member}
use infra_lab.Trader.Tools.Dispatch.{
  Tool, get_account, get_positions, get_open_orders, place, move_stop, close, note, evidence,
  get_movers, get_most_actives, get_snapshots, check_symbol, scan_universe, get_news, get_bars,
  handoff, report, unknown, misfit,
}

module _ {F : Type 0} where
  -- All the keys are among `names`.
  pub only : List String → Fields F → Bool
  only names end = true
  only names (field k v rest) = contains names k && only names rest

  no_arguments : Tool F → Fields F → Tool F
  no_arguments tool end = tool
  no_arguments tool (field k v rest) = misfit

  bind_two : (Json F → Json F → Tool F) → Option (Json F) → Option (Json F) → Tool F
  bind_two f (some a) (some b) = f a b
  bind_two f a b = misfit

  -- `handler(**args)` for a method with two parameters
  two_arguments : String → String → (Json F → Json F → Tool F) → Fields F → Tool F
  two_arguments p q f args =
      if only (p ∷ q ∷ []) args then bind_two f (member p args) (member q args) else misfit

  bind_place : Option (Json F) → Option (Json F) → Option (Json F) → Tool F
  bind_place (some a) (some b) (some c) = place a b c
  bind_place a b c = misfit

  bind_one : (Json F → Tool F) → Option (Json F) → Tool F
  bind_one f (some v) = f v
  bind_one f none = misfit

  -- A kind that is no text is in no list of kinds, so it counts as a note.
  note_of : Json F → Json F → Tool F
  note_of (str kind) body = note kind body
  note_of kind body = note "note" body

  -- A method with one parameter that must be there
  one_argument : String → (Json F → Tool F) → Fields F → Tool F
  one_argument p f args = if only (p ∷ []) args then bind_one f (member p args) else misfit

  -- A parameter with a default
  given : String → Json F → Fields F → Json F
  given p default args = elim (member p args) [ none ↦ default | some v ↦ v ]

module _ {F : Type 0} ⦃number : Number F⦄ where
  abbrev int : ℕ → Json F
  int n = num (of_ℕ n)

  bind_bars : Fields F → Option (Json F) → Tool F
  unfolding given
  bind_bars args none = misfit
  bind_bars args (some symbols) =
      get_bars symbols (given "timeframe" (str "5Min") args) (given "start" null args)
        (given "limit" (int 200) args)

  bind_news : Fields F → Option (Json F) → Tool F
  unfolding given
  bind_news args none = misfit
  bind_news args (some symbols) = get_news symbols (given "limit" (int 5) args)

  pub table : List (String × (Fields F → Tool F))
  unfolding no_arguments one_argument bind_one given bind_bars bind_news bind_two two_arguments
      bind_place note_of only
  table =
      ("get_account", no_arguments get_account)
      ∷ ("get_positions", no_arguments get_positions)
      ∷ ("get_open_orders", no_arguments get_open_orders)
      ∷ (
        "get_movers",
        λ args. if only ("top" ∷ []) args then get_movers (given "top" (int 50) args) else misfit,
      )
      ∷ (
        "scan_universe",
        λ args.
            if only ("min_change_pct" ∷ "top" ∷ []) args
            then scan_universe (given "min_change_pct" (num (number.decimal 1 0)) args)
                (given "top" (int 25) args)
            else misfit,
      )
      ∷ (
        "get_most_actives",
        λ args.
            if only ("top" ∷ []) args then get_most_actives (given "top" (int 30) args) else misfit,
      )
      ∷ ("get_snapshots", one_argument "symbols" get_snapshots)
      ∷ (
        "get_bars",
        λ args.
            if only ("symbols" ∷ "timeframe" ∷ "start" ∷ "limit" ∷ []) args
            then bind_bars args (member "symbols" args)
            else misfit,
      )
      ∷ (
        "get_news",
        λ args.
            if only ("symbols" ∷ "limit" ∷ []) args
            then bind_news args (member "symbols" args)
            else misfit,
      )
      ∷ ("check_symbol", one_argument "symbol" check_symbol)
      ∷ (
        "place_bracket_order",
        λ args.
            if only ("symbol" ∷ "entry_limit" ∷ "stop" ∷ []) args
            then bind_place (member "symbol" args) (member "entry_limit" args) (member "stop" args)
            else misfit,
      )
      ∷ ("move_stop_to", two_arguments "symbol" "new_stop" move_stop)
      ∷ ("close_position", two_arguments "symbol" "reason" close)
      ∷ ("journal_note", two_arguments "kind" "text" note_of)
      ∷ ("save_evidence", two_arguments "filename" "content" evidence)
      ∷ ("save_handoff", one_argument "handoff" handoff)
      ∷ ("send_report", two_arguments "title" "message" report)
      ∷ []

  bind_object : String → (Fields F → Tool F) → Json F → Tool F
  bind_object name f (obj args) = f args
  bind_object name f args = misfit

  -- `use.get("input") or {}`
  abbrev pub input_of : Json F → Json F
  input_of v = if truthy (some v) then v else obj end

  unfoldable pub bind : String → Json F → Tool F
  unfolding table bind_object
  bind name args = elim (lookup name table) [
    | none ↦ unknown name
    | some f ↦ bind_object name f (input_of args)
  ]
