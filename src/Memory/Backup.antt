-- ===== src/Memory/Backup.antt =====
-- scripts/mempalace_remote_backup.py: the wings, their drawers and the manifest. What is written to the
-- disk is the result; the client and the paging are those of the migration, whose code is the same.
use infra_lab.Base.{
  ℕ, String, not, Option, none, some, List, [], ◌∷◌, ◌++◌, if◌then◌else◌, is_empty, keep_if,
  contains, length, Result, ok, err, runtime, type_error,
}
use infra_lab.Base.Stateful.{pure, raise, lift, attempt, ◌>>=◌}
use infra_lab.Base.Effects.{Calls}
use infra_lab.Base.Text.{◌<>◌, strip, split, is_blank, sort_texts}
use infra_lab.Base.Json.{Json, Fields, end, field, str, obj, member}
use infra_lab.Memory.Client.{Server, Call, Network, tool_call}
use infra_lab.Memory.Paging.{dict_of, list_wing_drawer_ids}

-- A record of the backup.
pub record Drawer : Type 0 where
  pub id : String
  pub document : Json ℕ
  pub metadata : Json ℕ

pub record Backup : Type 0 where
  pub records : List Drawer
  pub warnings : List String

-- The parts of the manifest that are computed.
pub record Manifest : Type 0 where
  pub records : ℕ
  pub wings_included : List String
  pub wings_skipped : List String
  pub export_warnings : List String

pub data Outcome : Type 0 where
  no_token : Outcome
  saved : Manifest → List Drawer → Outcome

abbrev get_or : Json ℕ → String → Fields ℕ → Json ℕ
get_or default key d = elim (member key d) [ none ↦ default | some v ↦ v ]

not_blank : List String → List String
not_blank [] = []
not_blank (w ∷ ws) = if is_blank (strip w) then not_blank ws else strip w ∷ not_blank ws

-- `_env_exclude_wings`
unfoldable pub env_exclude_wings : Option String → List String
unfolding split strip not_blank
env_exclude_wings none = []
env_exclude_wings (some raw) = not_blank (split b',' raw)

-- The wings of the options where there are some, and of the environment otherwise.
unfoldable pub exclude_wings : List String → Option String → List String
unfolding env_exclude_wings
exclude_wings given raw = if is_empty given then env_exclude_wings raw else given

unfoldable pub included_wings : List String → List String → List String
unfolding sort_texts
included_wings exclude wings = sort_texts (keep_if (λ w. not (contains exclude w)) wings)

unfoldable pub skipped_wings : List String → List String → List String
unfolding sort_texts
skipped_wings exclude wings = sort_texts (keep_if (contains exclude) wings)

abbrev names_of : Fields ℕ → List String
names_of end = []
names_of (field k v rest) = k ∷ names_of rest

-- The keys of the dict of wings; wings that are no dict are not told apart from an error.
unfoldable pub wing_names : Json ℕ → Result (List String)
wing_names (obj d) = ok (names_of d)
wing_names v = err type_error

module _ (w : Network) (server : Server) where
  unfoldable pub get_wings : Calls Call (List String)
  unfolding wing_names
  get_wings = do
    found ← tool_call w server "mempalace_status" (obj end)
    status ← lift (dict_of found)
    lift (wing_names (get_or (obj end) "wings" status))

  unfoldable pub fetch_full_drawer : String → Calls Call Drawer
  fetch_full_drawer drawer_id = do
    found ← tool_call w server "mempalace_get_drawer" (obj (field "drawer_id" (str drawer_id) end))
    d ← lift (dict_of found)
    pure (record {
      id = drawer_id;
      document = get_or (str "") "content" d;
      metadata = get_or (obj end) "metadata" d;
    })

  -- The backup after a drawer: only a RuntimeError becomes a warning.
  unfoldable pub recorded : String → String → Backup → Result Drawer → Result Backup
  recorded wing drawer_id b (ok drawer) = ok (record b { records = b.records ++ (drawer ∷ []) })
  recorded wing drawer_id b (err (runtime message)) = ok (record b {
    warnings =
        b.warnings
        ++ (("drawer '"
              <> (drawer_id
                  <> ("' (wing '" <> (wing <> ("') failed to fetch, skipping it: " <> message)))))
            ∷ []);
  })
  recorded wing drawer_id b (err e) = err e

  unfoldable pub fetch_all : String → List String → Backup → Calls Call Backup
  unfolding recorded fetch_full_drawer
  fetch_all wing [] b = pure b
  fetch_all wing (drawer_id ∷ ids) b = do
    outcome ← attempt (fetch_full_drawer drawer_id)
    next ← lift (recorded wing drawer_id b outcome)
    fetch_all wing ids next

  -- What follows the listing of a wing; `none` stands for a listing that ran out of fuel.
  unfoldable pub after_list :
      String → Backup → Result (Option (List String)) → Calls Call (Option Backup)
  unfolding fetch_all
  after_list wing b (ok none) = pure none
  after_list wing b (ok (some ids)) = do next ← fetch_all wing ids b; pure (some next)
  after_list wing b (err (runtime message)) = pure (
      some (record b {
        warnings =
            b.warnings
            ++ (("wing '" <> (wing <> ("' failed to list, skipping it: " <> message))) ∷ []);
      }))
  after_list wing b (err e) = raise e

  unfoldable pub backup_wing : ℕ → String → Backup → Calls Call (Option Backup)
  unfolding after_list
  backup_wing fuel wing b = attempt (list_wing_drawer_ids w server wing fuel) >>= after_list wing b

  -- `again` is what follows with the next wings.
  unfoldable pub after_wing :
      (Backup → Calls Call (Option Backup)) → Option Backup → Calls Call (Option Backup)
  after_wing again none = pure none
  after_wing again (some b) = again b

  unfoldable pub backup_wings : ℕ → List String → Backup → Calls Call (Option Backup)
  unfolding backup_wing after_wing
  backup_wings fuel [] b = pure (some b)
  backup_wings fuel (wing ∷ wings) b =
      backup_wing fuel wing b >>= after_wing (backup_wings fuel wings)

  abbrev pub manifest_of : List String → List String → Option Backup → Option Outcome
  manifest_of included skipped none = none
  manifest_of included skipped (some b) = some (
      saved
        (record {
          records = length b.records;
          wings_included = included;
          wings_skipped = skipped;
          export_warnings = b.warnings;
        })
        b.records)

  -- The wings of the palace without the excluded ones.
  unfoldable pub backup_all : ℕ → List String → List String → Calls Call (Option Outcome)
  unfolding included_wings skipped_wings backup_wings
  backup_all fuel exclude wings = do
    done ← backup_wings fuel (included_wings exclude wings) (record { records = []; warnings = [] })
    pure (manifest_of (included_wings exclude wings) (skipped_wings exclude wings) done)

  -- With the wings of the options and the environment's text of wings.
  unfoldable pub main : ℕ → List String → Option String → Calls Call (Option Outcome)
  unfolding get_wings backup_all exclude_wings
  main fuel given raw =
      if is_blank server.token
      then pure (some no_token)
      else get_wings >>= backup_all fuel (exclude_wings given raw)
