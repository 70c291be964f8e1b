-- ===== src/Trader/Store.antt =====
-- S3-backed state: class `Store` of store.py, with the key prefix as a parameter. The bucket is the
-- part `get_object`, `put_object`, `put_new`, `delete_object` of `World`.
pub mod Lock
pub mod Race
use infra_lab.Base.{
  ℕ, zero, suc, ◌-◌, ◌*◌, String, Bool, true, false, not, Option, none, some, List, [], ◌∷◌, ◌==◌,
  if◌then◌else◌, length, drop, Result, ok, err, client, lock_held, type_error, attribute_error,
  str_eq, ◌||◌, Exec,
}
use infra_lab.Base.Stateful.{pure, raise, lift, attempt, ◌>>=◌, ◌>>◌}
use infra_lab.Base.Text.{◌<>◌}
use infra_lab.Base.Number.{Number, of_ℕ, text_of, truthy}
use infra_lab.Base.Json.{Json, Fields, end, field, null, bool, num, str, arr, obj, member, is_str}
use infra_lab.Trader.World.{
  World, Run, Entry, send, get_object, put_object, put_new, delete_object, time,
}

abbrev pub lock_ttl_seconds : ℕ
lock_ttl_seconds = 15 * 60

abbrev pub lock_name : String
lock_name = "state/lock.json"

-- `text.splitlines()`, over the line breaks of ASCII text: the lines without their ends. The second
-- argument is the line so far. A carriage return is a break of its own here; texts written by
-- `json.dumps` have none.
is_break : ℕ → Bool
is_break c = c == 10 || c == 11 || c == 12 || c == 13 || c == 28 || c == 29 || c == 30

end_line : String → List String
end_line String.[] = []
end_line (String.◌∷◌ c s) = String.◌∷◌ c s ∷ []

pub splitlines_from : String → String → List String
splitlines_from line String.[] = end_line line
splitlines_from line (String.◌∷◌ c s) = elim (is_break (Prim.Native.Char.code c)) [
  | true ↦ line ∷ splitlines_from String.[] s
  | false ↦ splitlines_from (line <> String.◌∷◌ c String.[]) s
]

unfoldable pub splitlines : String → List String
unfolding splitlines_from end_line is_break
splitlines text = splitlines_from String.[] text

-- `items[-count:]`, for a positive count
unfoldable pub last {ℓ} : {A : Type ℓ} → ℕ → List A → List A
last count items = drop (length items - count) items

abbrev pub or_empty : Option String → String
or_empty none = ""
or_empty (some text) = text

module _ {F : Type 0} ⦃number : Number F⦄ where
  abbrev pub lock_object : String → ℕ → F → Json F
  lock_object run_id slot now = obj (
      field "run_id" (str run_id) (
        field "slot" (num (of_ℕ slot))
          (field "expires_at" (num (number.add now (of_ℕ lock_ttl_seconds))) end)))

module _ {F : Type 0} ⦃number : Number F⦄ (w : World F) (prefix : String) where
  abbrev pub full_key : String → Bool → String
  full_key key absolute = if absolute then key else prefix <> key

  unfoldable pub get_text : String → Option String → Bool → Exec (Run F) (Option String)
  get_text key default absolute = do
    let full = full_key key absolute
    found ← send (get_object full) (λ h. w.get_object h full)
    pure (elim found [ none ↦ default | some text ↦ some text ])

  unfoldable pub put_text : String → String → Bool → Exec (Run F) (Unit {0})
  put_text key text absolute = do
    let full = full_key key absolute
    send (put_object full text) (λ h. w.put_object h full text)

  unfoldable pub get_json : String → Option (Json F) → Bool → Exec (Run F) (Option (Json F))
  unfolding get_text
  get_json key default absolute = do
    text ← get_text key none absolute
    elim text [ none ↦ pure default | some t ↦ (do v ← lift (w.loads t); pure (some v)) ]

  unfoldable pub put_json : String → Json F → Bool → Exec (Run F) (Unit {0})
  unfolding put_text
  put_json key value absolute = put_text key (w.dumps value) absolute

  -- `get_text(key, "") or ""`
  unfoldable pub get_lines_text : String → Exec (Run F) String
  unfolding get_text
  get_lines_text key = do text ← get_text key (some "") false; pure (or_empty text)

  unfoldable pub append_jsonl : String → Entry F → Exec (Run F) (Unit {0})
  unfolding get_lines_text put_text
  append_jsonl key entry = do
    existing ← get_lines_text key
    put_text key (existing <> (w.line entry <> "\n")) false

  unfoldable pub tail_lines : String → ℕ → Exec (Run F) (List String)
  unfolding get_lines_text splitlines last
  tail_lines key count = do text ← get_lines_text key; pure (last count (splitlines text))

  -- `value or {}`, on which `.get` is called
  abbrev pub object_or_empty : Option (Json F) → Result (Fields F)
  object_or_empty none = ok end
  object_or_empty (some (obj d)) = ok d
  object_or_empty (some v) = if truthy (some v) then err attribute_error else ok end

  -- `current.get("expires_at", 0)`, as a number that is compared
  abbrev pub expiry : Fields F → Result F
  expiry current = elim (member "expires_at" current) [
    | none ↦ ok (of_ℕ 0)
    | some v ↦ elim v [
      | num x ↦ ok x
      | bool b ↦ ok (if b then of_ℕ 1 else of_ℕ 0)
      | _ ↦ err type_error
    ]
  ]

  abbrev pub is_conflict : String → Bool
  is_conflict code = str_eq code "PreconditionFailed" || str_eq code "ConditionalRequestConflict"

  unfoldable pub read_lock : Exec (Run F) (Fields F)
  unfolding get_json
  read_lock = do found ← get_json lock_name (some (obj end)) false; lift (object_or_empty found)

  pub holder_message : Fields F → String
  holder_message current =
      "lock held by " <> elim (member "run_id" current) [ none ↦ "None" | some v ↦ text_of v ]

  -- The `except` clause: raises unless the lock that stands there has expired, and then removes it.
  unfoldable pub clear_expired : String → Exec (Run F) (Unit {0})
  unfolding read_lock
  clear_expired code = if not (is_conflict code) then raise (client code) else do
    current ← read_lock
    expires_at ← lift (expiry current)
    now ← send time (λ h. ok (w.time h))
    if number.lt now expires_at
        then raise (lock_held (holder_message current))
        else send (delete_object (prefix <> lock_name))
            (λ h. w.delete_object h (prefix <> lock_name))

  -- After the conditional write: done, or another round once the way is free.
  unfoldable pub after_write : Result (Unit {0}) → Exec (Run F) (Unit {0}) → Exec (Run F) (Unit {0})
  after_write (ok _) again = pure tt
  after_write (err (client code)) again = clear_expired code >> again
  after_write (err e) again = raise e

  unfoldable pub try_lock : ℕ → String → Exec (Run F) (Unit {0})
  unfolding clear_expired after_write
  try_lock zero body = raise (lock_held "could not acquire lock")
  try_lock (suc rounds) body = do
    let key = prefix <> lock_name
    outcome ← attempt (send (put_new key body) (λ h. w.put_new h key body))
    after_write outcome (try_lock rounds body)

  unfoldable pub lock_body : String → ℕ → F → String
  lock_body run_id slot now = w.dumps (lock_object run_id slot now)

  unfoldable pub acquire_lock : String → ℕ → Exec (Run F) (Unit {0})
  unfolding try_lock lock_body
  acquire_lock run_id slot = do
    now ← send time (λ h. ok (w.time h))
    try_lock 2 (lock_body run_id slot now)

  unfoldable pub release_lock : String → Exec (Run F) (Unit {0})
  unfolding read_lock
  release_lock run_id = do
    current ← read_lock
    if is_str run_id (member "run_id" current)
        then send (delete_object (prefix <> lock_name))
            (λ h. w.delete_object h (prefix <> lock_name))
        else pure tt
