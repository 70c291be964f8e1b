-- ===== src/Memory/Migrate.antt =====
-- `main` of scripts/mempalace_migrate_wing.py: the copy of the drawers that were listed.
use infra_lab.Base.{
  ℕ, suc, ◌+◌, ◌≡◌, String, Bool, true, false, Option, none, some, List, [], ◌∷◌, ◌==◌, arith,
  if◌then◌else◌, length, Result, ok, err, runtime, ok-injective,
}
use mathlib.Core.Path.{subst}
use infra_lab.Base.Stateful.{pure, lift, attempt, ◌>>=◌, bind-ends}
use infra_lab.Base.Effects.{Calls}
use infra_lab.Base.Text.{is_blank}
use infra_lab.Base.Json.{
  Json, Fields, end, field, null, bool, num, str, arr, obj, none_left, item, member, is_str,
}
use infra_lab.Memory.Client.{Server, Call, Network, object_of, at_key, tool_call}
use infra_lab.Memory.Paging.{list_wing_drawer_ids}

-- `results`
pub record Tally : Type 0 where
  pub copied : ℕ
  pub already_exists : ℕ
  pub errors : ℕ

abbrev pub total : Tally → ℕ
total t = t.copied + t.already_exists + t.errors

-- `d.get(key, default)`
abbrev get_or : Json ℕ → String → Fields ℕ → Json ℕ
get_or default key d = elim (member key d) [ none ↦ default | some v ↦ v ]

-- Adds `key` of the metadata in front of the arguments where it is there and true.
abbrev with_key : String → Fields ℕ → Fields ℕ → Fields ℕ
with_key key md rest = elim (member key md) [
  | none ↦ rest
  | some v ↦ elim v [
    | null ↦ rest
    | bool b ↦ if b then field key (bool b) rest else rest
    | num n ↦ if n == 0 then rest else field key (num n) rest
    | str s ↦ if is_blank s then rest else field key (str s) rest
    | arr vs ↦ elim vs [ none_left ↦ rest | item x xs ↦ field key (arr (item x xs)) rest ]
    | obj d ↦ elim d [ end ↦ rest | field k x xs ↦ field key (obj (field k x xs)) rest ]
  ]
]

module _ (w : Network) (source dest : Server) where
  -- Copies a drawer; whether the destination has had it.
  unfoldable pub copy_one : String → Calls Call Bool
  copy_one drawer_id = do
    found ← tool_call w source "mempalace_get_drawer" (obj (field "drawer_id" (str drawer_id) end))
    full ← lift (object_of found)
    wing ← lift (at_key "wing" full)
    room ← lift (at_key "room" full)
    md ← lift (object_of (get_or (obj end) "metadata" full))
    answer ← tool_call w dest "mempalace_add_drawer" (
        obj (
          field "wing" wing (
            field "room" room (
              field "content" (get_or (str "") "content" full)
                (with_key "source_file" md (with_key "added_by" md end))))))
    result ← lift (object_of answer)
    pure (is_str "already_exists" (member "reason" result))

  -- The tally after a drawer. Only a RuntimeError is counted; any other ends the run.
  unfoldable pub counted : Tally → Result Bool → Result Tally
  counted t (ok true) = ok (record t { already_exists = t.already_exists + 1 })
  counted t (ok false) = ok (record t { copied = t.copied + 1 })
  counted t (err (runtime message)) = ok (record t { errors = t.errors + 1 })
  counted t (err e) = err e

  unfoldable pub migrate : List String → Tally → Calls Call Tally
  migrate [] t = pure t
  migrate (drawer_id ∷ ids) t = do
    outcome ← attempt (copy_one drawer_id)
    next ← lift (counted t outcome)
    migrate ids next

  abbrev pub exit_code : Tally → ℕ
  exit_code t = if t.errors == 0 then 0 else 1

  -- The copy of the drawers that were listed; `none` stands for a listing that ran out of fuel.
  unfoldable pub copy_all : Option (List String) → Calls Call (Option ℕ)
  unfolding migrate
  copy_all none = pure none
  copy_all (some ids) = do
    t ← migrate ids (record { copied = 0; already_exists = 0; errors = 0 })
    pure (some (exit_code t))

  unfoldable pub main : String → ℕ → Calls Call (Option ℕ)
  unfolding copy_all
  main wing fuel = list_wing_drawer_ids w source wing fuel >>= copy_all

  counted-total :
      (t next : Tally) (r : Result Bool) → counted t r ≡ ok next → total next ≡ total t + 1
  unfolding counted
  counted-total t next (ok true) h = rw (← ok-injective _ next h) (omega arith)
  counted-total t next (ok false) h = rw (← ok-injective _ next h) (omega arith)
  counted-total t next (err (runtime message)) h = rw (← ok-injective _ next h) (omega arith)
  counted-total t next (err _) h = cc

  -- A result without a tally is of no matter.
  pub Adds : ℕ → Result Tally → Type 0
  Adds n (ok t) = total t ≡ n
  Adds n (err e) = Unit {0}

  migrate-Adds :
      (ids : List String) (t : Tally) (made : List Call)
      → Adds (total t + length ids) (migrate ids t made).0
  unfolding migrate Adds
  migrate-Adds [] t made = omega arith
  migrate-Adds (drawer_id ∷ ids) t made =
      bind-ends (λ x. Adds (total t + suc (length ids)) x.0) (attempt (copy_one drawer_id))
        (λ outcome. lift (counted t outcome) >>= migrate ids) made (λ e raised. tt)
        (λ outcome tried.
          bind-ends (λ x. Adds (total t + suc (length ids)) x.0) (lift (counted t outcome))
            (migrate ids) (copy_one drawer_id made).1 (λ e raised. tt)
            (λ next same.
              let whole : total next + length ids ≡ total t + suc (length ids) =
                omega (arith, counted-total t next outcome same) in
              subst (λ n. Adds n (migrate ids next (copy_one drawer_id made).1).0) whole
                (migrate-Adds ids next (copy_one drawer_id made).1)))

  -- A copy that ends with a tally has counted each of the listed drawers just once: as copied, as there
  -- already, or as an error.
  pub migrate-total :
      (ids : List String) (made : List Call) (t : Tally)
      → (migrate ids (record { copied = 0; already_exists = 0; errors = 0 }) made).0 ≡ ok t
      → total t ≡ length ids
  unfolding Adds
  migrate-total ids made t h =
      let start : Tally = record { copied = 0; already_exists = 0; errors = 0 } in
      let counts : total t ≡ 0 + length ids =
        subst (Adds (0 + length ids)) h (migrate-Adds ids start made) in
      omega (arith, counts)
