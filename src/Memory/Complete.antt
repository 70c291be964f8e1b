-- ===== src/Memory/Complete.antt =====
-- What the exit code of `main` in scripts/mempalace_migrate_wing.py says.
use infra_lab.Base.{ℕ, ◌+◌, ◌≤◌, ◌≡◌, String, some, List, length, ok}
use infra_lab.Memory.Client.{Server, Call, Network}
use infra_lab.Memory.Paging.{list_wing_drawer_ids}
use infra_lab.Memory.Offers.{offers}
use infra_lab.Memory.Migrate.{Tally, main}

abbrev pub start : Tally
start = record { copied = 0; already_exists = 0; errors = 0 }

module _ (w : Network) (source dest : Server) (wing : String) where
  -- The listing gave `ids`; the copy of them has counted each as new or as there already, and has sent
  -- the destination a request to add a drawer for each.
  pub record IsComplete (fuel : ℕ) (made : List Call) : Type 0 where
    pub ids : List String
    pub tally : Tally
    pub listed : (list_wing_drawer_ids w source wing fuel made).0 ≡ ok (some ids)
    pub whole : tally.copied + tally.already_exists ≡ length ids
    pub offered :
        offers dest.url (list_wing_drawer_ids w source wing fuel made).1 + length ids
        ≤ offers dest.url (main w source dest wing fuel made).1
