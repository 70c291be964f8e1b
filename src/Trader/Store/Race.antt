-- ===== src/Trader/Store/Race.antt =====
-- The run lock of store.py under several runs at once: each request of `acquire_lock` and
-- `release_lock` to the bucket is one step, and the steps of the runs interleave. A run is a number,
-- its phase says which request comes next, and time is in whole seconds.
pub mod Exclusion
mod Tests
use infra_lab.Base.{
  ℕ, zero, suc, ◌+◌, ◌==◌, ltb, Bool, true, false, ◌≡◌, refl, arith, Option, none, some, List, [],
  ◌∷◌, if◌then◌else◌,
}
use infra_lab.Trader.Store.{lock_ttl_seconds}

pub record Lock : Type 0 where
  pub owner : ℕ
  pub expires : ℕ

-- The first number of a phase is that of the rounds that are left, the second one the time at which the
-- lock that the run writes expires.
pub data Phase : Type 0 where
  idle holding freeing finished failed : Phase
  putting reading clearing : ℕ → ℕ → Phase
  -- with the time at which the lock that was read expires, 0 where there was none
  judging : ℕ → ℕ → ℕ → Phase

pub record System : Type 0 where
  pub bucket : Option Lock
  pub now : ℕ
  pub phases : ℕ → Phase

abbrev pub expiry_of : Option Lock → ℕ
expiry_of none = 0
expiry_of (some lock) = lock.expires

abbrev pub owned_by : ℕ → Option Lock → Bool
owned_by run none = false
owned_by run (some lock) = lock.owner == run

-- What a conditional write leaves in the bucket.
abbrev pub put_new : ℕ → ℕ → Option Lock → Option Lock
put_new run expires none = some (record { owner = run; expires = expires })
put_new run expires (some lock) = some lock

-- The phase that follows a request: `run` sent it at `now` and met `bucket`.
unfoldable pub next_phase : ℕ → ℕ → Option Lock → Phase → Phase
next_phase run now bucket idle = putting 1 (now + lock_ttl_seconds)
next_phase run now none (putting left expires) = holding
next_phase run now (some lock) (putting left expires) = reading left expires
next_phase run now bucket (reading left expires) = judging left expires (expiry_of bucket)
next_phase run now bucket (judging left expires found) =
    if ltb now found then failed else clearing left expires
next_phase run now bucket (clearing zero expires) = failed
next_phase run now bucket (clearing (suc left) expires) = putting left expires
next_phase run now bucket holding = if owned_by run bucket then freeing else finished
next_phase run now bucket freeing = finished
next_phase run now bucket finished = finished
next_phase run now bucket failed = failed

-- The bucket that the request leaves.
unfoldable pub next_bucket : ℕ → Option Lock → Phase → Option Lock
next_bucket run bucket (putting left expires) = put_new run expires bucket
next_bucket run bucket (clearing left expires) = none
next_bucket run bucket freeing = none
next_bucket run bucket phase = bucket

abbrev pub set_phase : ℕ → Phase → (ℕ → Phase) → ℕ → Phase
set_phase run phase phases other = if other == run then phase else phases other

-- `run` sends its next request.
unfoldable pub turn : ℕ → System → System
unfolding next_phase next_bucket
turn run s = record {
  bucket = next_bucket run s.bucket (s.phases run);
  now = s.now;
  phases = set_phase run (next_phase run s.now s.bucket (s.phases run)) s.phases;
}

-- `run` is killed, as by a timeout of the function.
unfoldable pub crash : ℕ → System → System
crash run s = record s { phases = set_phase run failed s.phases }

unfoldable pub tick : ℕ → System → System
tick seconds s = record s { now = s.now + seconds }

unfoldable pub turns : List ℕ → System → System
turns [] s = s
turns (run ∷ runs) s = turns runs (turn run s)

abbrev pub is_clearing : Phase → Bool
is_clearing (clearing left expires) = true
is_clearing phase = false

-- Whether the run is inside the section that the lock guards.
abbrev pub is_inside : Phase → Bool
is_inside holding = true
is_inside freeing = true
is_inside phase = false

-- The systems that are reached from `start`, where no run clears a lock away.
pub data Reach (start : System) : System → Type 0 where
  begin : Reach start start
  turned :
      {s : System} (run : ℕ)
      → Reach start s
      → is_clearing (s.phases run) ≡ false
      → Reach start (turn run s)
  crashed : {s : System} (run : ℕ) → Reach start s → Reach start (crash run s)
  ticked : {s : System} (seconds : ℕ) → Reach start s → Reach start (tick seconds s)
