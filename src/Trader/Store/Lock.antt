-- ===== src/Trader/Store/Lock.antt =====
-- The run lock: `acquire_lock` and `release_lock` of store.py.
use infra_lab.Base.{
  ℕ, zero, suc, String, ◌≡◌, refl, true, some, List, ◌∷◌, arith, if◌then◌else◌, Result, ok, err,
  client, lock_held, str_eq, Exec,
}
use infra_lab.Base.Stateful.{bind-returns}
use infra_lab.Base.Text.{◌<>◌}
use infra_lab.Base.Number.{Number}
use infra_lab.Base.Json.{Json, Fields, num, obj, member, is_str}
use infra_lab.Trader.World.{World, Run, Call, get_object, put_new, delete_object, time}
use infra_lab.Trader.Store.{
  lock_name, lock_object, lock_body, try_lock, acquire_lock, release_lock, clear_expired,
  after_write, read_lock, holder_message, is_conflict,
}

module _ {F : Type 0} ⦃number : Number F⦄ (w : World F) (prefix : String) where
  -- The newest call of the history is a conditional write of the lock, which succeeded.
  abbrev pub JustWrote : String → List (Call F) → Type 0
  JustWrote body history =
      (before : List (Call F)) × (history ≡ put_new (prefix <> lock_name) body ∷ before)
      × (w.put_new before (prefix <> lock_name) body ≡ ok tt)

  after_write-JustWrote :
      (body : String) (s : Run F) (again : Exec (Run F) (Unit {0})) (outcome : Result (Unit {0}))
      → w.put_new s.history (prefix <> lock_name) body ≡ outcome
      → ((t : Run F) → (again t).0 ≡ ok tt → JustWrote body (again t).1.history)
      → let t = record s { history = put_new (prefix <> lock_name) body ∷ s.history } in
        (after_write w prefix outcome again t).0 ≡ ok tt
        → JustWrote body (after_write w prefix outcome again t).1.history
  unfolding after_write
  after_write-JustWrote body s again (ok _) wrote later h = (s.history, refl, wrote)
  after_write-JustWrote body s again (err (client code)) wrote later h =
      let t : Run F = record s { history = put_new (prefix <> lock_name) body ∷ s.history } in
      let (_, _, goes) = bind-returns (clear_expired w prefix code) (λ _. again) t h in
      rw goes (later (clear_expired w prefix code t).1 (rw (← goes) h))
  after_write-JustWrote body s again (err _) wrote later h = cc

  try_lock-JustWrote :
      (rounds : ℕ) (body : String) (s : Run F)
      → (try_lock w prefix rounds body s).0 ≡ ok tt
      → JustWrote body (try_lock w prefix rounds body s).1.history
  unfolding try_lock
  try_lock-JustWrote zero body s h = cc
  try_lock-JustWrote (suc rounds) body s h =
      after_write-JustWrote body s (try_lock w prefix rounds body) _ refl
        (try_lock-JustWrote rounds body) h

  -- A lock that can be read and parsed is read by one call.
  read_lock-eq :
      (t : Run F) (text : String) (current : Fields F)
      → w.get_object t.history (prefix <> lock_name) ≡ ok (some text)
      → w.loads text ≡ ok (obj current)
      → read_lock w prefix t
        ≡ (ok current, record t { history = get_object (prefix <> lock_name) ∷ t.history })
  unfolding read_lock
  read_lock-eq t text current found parsed = ground arith

  pub release_lock-history :
      (other text : String) (current : Fields F) (t : Run F)
      → w.get_object t.history (prefix <> lock_name) ≡ ok (some text)
      → w.loads text ≡ ok (obj current)
      → (release_lock w prefix other t).1.history ≡ (
          if is_str other (member "run_id" current)
          then delete_object (prefix <> lock_name) ∷ get_object (prefix <> lock_name) ∷ t.history
          else get_object (prefix <> lock_name) ∷ t.history)
  unfolding release_lock
  release_lock-history other text current t found parsed =
      rw (read_lock-eq t text current found parsed, release_lock) (ground arith)

  -- `acquire_lock` returns only right after its own conditional write of the lock, which succeeded: the
  -- lock that it leaves names this run, and expires 15 minutes after the call began.
  pub acquire_lock-JustWrote :
      (run_id : String) (slot : ℕ) (s : Run F)
      → (acquire_lock w prefix run_id slot s).0 ≡ ok tt
      → JustWrote
          (lock_body w prefix run_id slot (w.time s.history))
          (acquire_lock w prefix run_id slot s).1.history
  unfolding acquire_lock
  acquire_lock-JustWrote run_id slot s h =
      try_lock-JustWrote 2 (lock_body w prefix run_id slot (w.time s.history))
        (record s { history = time ∷ s.history }) h

  -- Where the conditional write finds a lock that has not expired, `acquire_lock` raises LockHeldError
  -- and has only read: it neither deletes the lock nor writes again.
  pub acquire_lock-live :
      (run_id : String) (slot : ℕ) (code text : String) (current : Fields F) (expires_at : F)
      (s : Run F)
      → let key = prefix <> lock_name in
        let h₁ = time ∷ s.history in
        let h₂ = put_new key (lock_body w prefix run_id slot (w.time s.history)) ∷ h₁ in
        w.put_new h₁ key (lock_body w prefix run_id slot (w.time s.history)) ≡ err (client code)
        → is_conflict w prefix code ≡ true
        → w.get_object h₂ key ≡ ok (some text)
        → w.loads text ≡ ok (obj current)
        → member "expires_at" current ≡ some (num expires_at)
        → number.lt (w.time (get_object key ∷ h₂)) expires_at ≡ true
        → acquire_lock w prefix run_id slot s ≡ (
          err (lock_held (holder_message w prefix current)),
          record s { history = time ∷ get_object key ∷ h₂ },
        )
  unfolding acquire_lock
  acquire_lock-live run_id slot code text current expires_at s taken conflict found parsed at live =
      let t : Run F = record s {
        history =
            put_new (prefix <> lock_name) (lock_body w prefix run_id slot (w.time s.history))
            ∷ time
            ∷ s.history;
      } in
      ground (arith, read_lock-eq t text current found parsed)

  -- What is assumed of the bucket and of JSON: an object that was just written is read back, and
  -- parsing gives back the value `v` that was printed.
  pub record IsFaithful (v : Json F) : Type 0 where
    pub get-put_new :
        (h : List (Call F)) (key text : String)
        → w.put_new h key text ≡ ok tt
        → w.get_object (put_new key text ∷ h) key ≡ ok (some text)
    pub loads-dumps : w.loads (w.dumps v) ≡ ok v

  -- Where the bucket reads back what was just written and JSON the lock that was printed: right after
  -- `run_id` took the lock, a release by the same run deletes it, and a release under another id only
  -- reads it.
  pub release-acquire :
      (run_id other : String) (slot : ℕ) (s : Run F)
      → IsFaithful (lock_object run_id slot (w.time s.history))
      → (acquire_lock w prefix run_id slot s).0 ≡ ok tt
      → let key = prefix <> lock_name in
        let t = (acquire_lock w prefix run_id slot s).1 in
        (release_lock w prefix other t).1.history ≡ (
          if str_eq run_id other
          then delete_object key ∷ get_object key ∷ t.history
          else get_object key ∷ t.history)
  unfolding release_lock lock_body
  release-acquire run_id other slot s laws h =
      let (before, whole, wrote) = acquire_lock-JustWrote run_id slot s h in
      let t = (acquire_lock w prefix run_id slot s).1 in
      release_lock-history other (lock_body w prefix run_id slot (w.time s.history)) _ t
        (rw whole (laws.get-put_new before _ _ wrote)) laws.loads-dumps
