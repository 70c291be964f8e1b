-- ===== src/Trader/Store/Race/Exclusion.antt =====
-- When the run lock of store.py keeps the runs apart, and two schedules under which it does not.
use infra_lab.Base.{
  ℕ, zero, suc, ◌≤◌, ◌==◌, ltb, Bool, true, false, Bool-cases, ◌≡◌, ◌≢◌, inl, inr, refl, sym, ◌∙◌,
  arith, Option, none, some, [], ◌∷◌, if◌then◌else◌,
}
use infra_lab.Trader.Store.Race.{
  Lock, Phase, idle, holding, freeing, finished, failed, putting, reading, clearing, judging,
  System, owned_by, next_phase, next_bucket, turn, crash, tick, turns, is_clearing, is_inside,
  Reach, begin, turned, crashed, ticked,
}

eq_self : (i : ℕ) → (i == i) ≡ true
eq_self i = ground arith

eq_apart : (i j : ℕ) → i ≢ j → (i == j) ≡ false
eq_apart i j apart = ground arith

eq_true : (i j : ℕ) → (i == j) ≡ true → i ≡ j
eq_true i j h = ground arith

eq_false : (i j : ℕ) → (i == j) ≡ false → i ≢ j
eq_false i j h = ground arith

-- Every run that is inside owns the lock in the bucket.
IsOwned : System → Type 0
IsOwned s = (run : ℕ) → is_inside (s.phases run) ≡ true → owned_by run s.bucket ≡ true

-- What a turn does to the lock of another run, and of its own.
turn_keeps :
    (i j now : ℕ) (bucket : Option Lock) (phase : Phase)
    → is_clearing phase ≡ false
    → (is_inside phase ≡ true → owned_by i bucket ≡ true)
    → j ≢ i
    → owned_by j bucket ≡ true
    → owned_by j (next_bucket i bucket phase) ≡ true
unfolding next_bucket
turn_keeps i j now bucket (clearing left e) h mine apart theirs = cc
turn_keeps i j now none (putting left e) h mine apart theirs = cc
turn_keeps i j now (some lock) (putting left e) h mine apart theirs = theirs
turn_keeps i j now none freeing h mine apart theirs = cc
turn_keeps i j now (some lock) freeing h mine apart theirs =
    let own : owned_by i (some lock) ≡ true = mine refl in
    absurd (apart (sym (eq_true lock.owner j theirs) ∙ eq_true lock.owner i own))
turn_keeps i j now bucket idle h mine apart theirs = theirs
turn_keeps i j now bucket holding h mine apart theirs = theirs
turn_keeps i j now bucket finished h mine apart theirs = theirs
turn_keeps i j now bucket failed h mine apart theirs = theirs
turn_keeps i j now bucket (reading left e) h mine apart theirs = theirs
turn_keeps i j now bucket (judging left e found) h mine apart theirs = theirs

turn_takes :
    (i now : ℕ) (bucket : Option Lock) (phase : Phase)
    → (is_inside phase ≡ true → owned_by i bucket ≡ true)
    → is_inside (next_phase i now bucket phase) ≡ true
    → owned_by i (next_bucket i bucket phase) ≡ true
unfolding next_phase next_bucket
turn_takes i now none (putting left e) mine inside = eq_self i
turn_takes i now (some lock) (putting left e) mine inside = cc
turn_takes i now bucket holding mine inside = mine refl
turn_takes i now bucket (clearing zero e) mine inside = cc
turn_takes i now bucket (clearing (suc left) e) mine inside = cc
turn_takes i now bucket (judging left e found) mine inside = elim (Bool-cases (ltb now found)) [
  | inl h ↦ ground arith
  | inr h ↦ ground arith
]
turn_takes i now bucket _ mine inside = cc

same_owner :
    (i j : ℕ) (bucket : Option Lock) → owned_by i bucket ≡ true → owned_by j bucket ≡ true → i ≡ j
same_owner i j none first second = cc
same_owner i j (some lock) first second =
    sym (eq_true lock.owner i first) ∙ eq_true lock.owner j second

turn-IsOwned :
    (i : ℕ) (s : System) → is_clearing (s.phases i) ≡ false → IsOwned s → IsOwned (turn i s)
unfolding turn IsOwned
turn-IsOwned i s h owned run inside = go (run == i) refl inside
  where
    go :
        (b : Bool)
        → (run == i) ≡ b
        → is_inside (if b then next_phase i s.now s.bucket (s.phases i) else s.phases run) ≡ true
        → owned_by run (next_bucket i s.bucket (s.phases i)) ≡ true
    go true e inside =
        rw (eq_true run i e) (turn_takes i s.now s.bucket (s.phases i) (owned i) inside)
    go false e inside =
        turn_keeps i run s.now s.bucket (s.phases i) h (owned i) (eq_false run i e)
          (owned run inside)

crash-IsOwned : (i : ℕ) (s : System) → IsOwned s → IsOwned (crash i s)
unfolding crash IsOwned
crash-IsOwned i s owned run inside = go (run == i) inside
  where
    go :
        (b : Bool)
        → is_inside (if b then failed else s.phases run) ≡ true
        → owned_by run s.bucket ≡ true
    go true inside = cc
    go false inside = owned run inside

Reach-IsOwned : {start s : System} → IsOwned start → Reach start s → IsOwned s
unfolding tick IsOwned
Reach-IsOwned owned begin = owned
Reach-IsOwned owned (turned run before h) = turn-IsOwned run _ h (Reach-IsOwned owned before)
Reach-IsOwned owned (crashed run before) = crash-IsOwned run _ (Reach-IsOwned owned before)
Reach-IsOwned owned (ticked seconds before) = Reach-IsOwned owned before

-- While no run deletes a lock that it takes for expired: at most one run is inside the section that the
-- lock guards, whatever the runs, their order, the time that passes and the runs that are killed. At
-- the start no run is inside; the bucket is arbitrary.
pub Reach-exclusive :
    (start s : System) (i j : ℕ)
    → ((run : ℕ) → is_inside (start.phases run) ≡ false)
    → Reach start s
    → is_inside (s.phases i) ≡ true
    → is_inside (s.phases j) ≡ true
    → i ≡ j
unfolding IsOwned
Reach-exclusive start s i j outside reached first second =
    let all_owned : IsOwned s = Reach-IsOwned (λ run inside. let h = outside run in cc) reached in
    same_owner i j s.bucket (all_owned i first) (all_owned j second)

-- From a system with a stale lock two runs that start together can both end up holding the lock, for
-- whatever lock, time and other runs: each has judged the stale lock before the other deletes it, and
-- the second delete removes the lock that the first run has just written.
pub turns-stale :
    (s : System) (i j : ℕ) (lock : Lock)
    → i ≢ j
    → s.phases i ≡ idle
    → s.phases j ≡ idle
    → s.bucket ≡ some lock
    → lock.expires ≤ s.now
    → let t = turns (i ∷ i ∷ i ∷ i ∷ j ∷ j ∷ j ∷ j ∷ i ∷ i ∷ j ∷ j ∷ []) s in
      (t.phases i ≡ holding) × (t.phases j ≡ holding)
unfolding turns turn next_phase next_bucket
turns-stale s i j lock apart first second found stale =
    let e = eq_apart i j apart in
    let e' = eq_apart j i (λ h. apart (sym h)) in
    let d = eq_self i in
    let d' = eq_self j in
    let l : ltb s.now lock.expires ≡ false = ground arith in (ground arith, ground arith)

-- Even without any stale lock, from an empty bucket: `i` takes the lock and gives it back between the
-- failed write of `j` and its read, which finds nothing and counts as an expired lock; `k` takes the
-- lock, `j` deletes it and writes its own. No time has to pass, and both hold the lock.
pub turns-fresh :
    (s : System) (i j k : ℕ)
    → i ≢ j
    → j ≢ k
    → i ≢ k
    → s.phases i ≡ idle
    → s.phases j ≡ idle
    → s.phases k ≡ idle
    → s.bucket ≡ none
    → let t = turns (i ∷ i ∷ j ∷ j ∷ i ∷ i ∷ j ∷ j ∷ k ∷ k ∷ j ∷ j ∷ []) s in
      (t.phases j ≡ holding) × (t.phases k ≡ holding) × (t.now ≡ s.now)
unfolding turns turn next_phase next_bucket
turns-fresh s i j k ij jk ik first second third empty =
    let e = eq_apart i j ij in
    let e' = eq_apart j i (λ h. ij (sym h)) in
    let g = eq_apart j k jk in
    let g' = eq_apart k j (λ h. jk (sym h)) in
    let f = eq_apart i k ik in
    let f' = eq_apart k i (λ h. ik (sym h)) in
    let d = eq_self i in
    let d' = eq_self j in let d'' = eq_self k in (ground arith, ground arith, refl)

-- A run that is alone is not kept out by an expired lock: after six requests it holds the lock and the
-- bucket has its own, and after two more the bucket is empty again and the run is done.
pub turns-alone :
    (s : System) (i : ℕ) (lock : Lock)
    → s.phases i ≡ idle
    → s.bucket ≡ some lock
    → lock.expires ≤ s.now
    → let t = turns (i ∷ i ∷ i ∷ i ∷ i ∷ i ∷ []) s in
      let u = turns (i ∷ i ∷ []) t in
      (t.phases i ≡ holding)
      × (owned_by i t.bucket ≡ true)
      × (u.phases i ≡ finished)
      × (u.bucket ≡ none)
unfolding turns turn next_phase next_bucket
turns-alone s i lock ready found stale =
    let d = eq_self i in
    let l : ltb s.now lock.expires ≡ false = ground arith in
    (ground arith, ground arith, ground arith, ground arith)
