-- ===== src/Memory/Wings.antt =====
-- The wings that scripts/mempalace_remote_backup.py includes and skips.
use infra_lab.Base.{
  ◌≡◌, refl, sym, ap, ◌∙◌, Bool, true, false, not, ◌&&◌, ◌||◌, String, List, [], ◌∷◌, if◌then◌else◌,
  keep_if, contains, str_eq, arith, eq_iff,
}
use infra_lab.Base.Text.{codes, leb_codes, insert_text, sort_texts}
use infra_lab.Memory.Backup.{included_wings, skipped_wings}

or_swap : (p q r : Bool) → (p || (q || r)) ≡ (q || (p || r))
or_swap true true r = refl
or_swap true false r = refl
or_swap false true r = refl
or_swap false false r = refl

and_false : (p : Bool) → (p && false) ≡ false
and_false true = refl
and_false false = refl

same_text : (s t : String) → str_eq s t ≡ true → s ≡ t
same_text s t h = ground (arith, eq_iff s t)

-- What a sorted list contains is what the list contains.
contains-insert_text :
    (x s : String) (ts : List String)
    → contains (insert_text s ts) x ≡ (str_eq s x || contains ts x)
unfolding insert_text
contains-insert_text x s [] = refl
contains-insert_text x s (t ∷ ts) = go (leb_codes (codes s) (codes t)) (contains-insert_text x s ts)
  where
    go :
        (b : Bool)
        → contains (insert_text s ts) x ≡ (str_eq s x || contains ts x)
        → contains (if b then s ∷ t ∷ ts else t ∷ insert_text s ts) x
          ≡ (str_eq s x || (str_eq t x || contains ts x))
    go true h = refl
    go false h = ap (λ b. str_eq t x || b) h ∙ or_swap (str_eq t x) (str_eq s x) (contains ts x)

contains-sort_texts : (x : String) (ss : List String) → contains (sort_texts ss) x ≡ contains ss x
unfolding sort_texts
contains-sort_texts x [] = refl
contains-sort_texts x (s ∷ ss) =
    contains-insert_text x s (sort_texts ss) ∙ ap (λ b. str_eq s x || b) (contains-sort_texts x ss)

-- The texts that are kept are those that pass the test.
contains-keep_if :
    (p : String → Bool) (x : String) (ss : List String)
    → contains (keep_if p ss) x ≡ (contains ss x && p x)
contains-keep_if p x [] = refl
contains-keep_if p x (s ∷ ss) = go (p s) (str_eq s x) refl refl (contains-keep_if p x ss)
  where
    go :
        (b c : Bool)
        → p s ≡ b
        → str_eq s x ≡ c
        → contains (keep_if p ss) x ≡ (contains ss x && p x)
        → contains (if b then s ∷ keep_if p ss else keep_if p ss) x
          ≡ ((str_eq s x || contains ss x) && p x)
    go true true kept same rest =
        let passes : p x ≡ true = sym (ap p (same_text s x same)) ∙ kept in rw (same, passes) refl
    go true false kept same rest = rw same rest
    go false true kept same rest =
        let fails : p x ≡ false = sym (ap p (same_text s x same)) ∙ kept in
        rest ∙ rw (fails, same) (and_false (contains ss x))
    go false false kept same rest = rw same rest

-- Which wings are in the two lists.
wings-partition :
    (exclude wings : List String) (wing : String)
    → (contains (included_wings exclude wings) wing
        ≡ (contains wings wing && not (contains exclude wing)))
      × (contains (skipped_wings exclude wings) wing
          ≡ (contains wings wing && contains exclude wing))
unfolding included_wings skipped_wings
wings-partition exclude wings wing = (
  contains-sort_texts wing (keep_if (λ w. not (contains exclude w)) wings)
      ∙ contains-keep_if (λ w. not (contains exclude w)) wing wings,
  contains-sort_texts wing (keep_if (contains exclude) wings)
      ∙ contains-keep_if (contains exclude) wing wings,
)

pub apart_from_included :
    (exclude wings : List String) (wing : String)
    → contains exclude wing ≡ true
    → contains (included_wings exclude wings) wing ≡ false
apart_from_included exclude wings wing out =
    (wings-partition exclude wings wing).0 ∙ rw out (and_false (contains wings wing))
