-- ===== src/Base/Text.antt =====
-- Python's text methods on ASCII text, over lists of code points and over the native texts.
use Prim.Native.Nat.{ℕ, zero, suc, ◌+◌, ◌/◌, ◌%◌}
use Prim.Native.Char.{Char, code}
use Prim.Native.String.{String}
use mathlib.Core.Bool.{Bool, true, false, ◌&&◌, ◌||◌}
use mathlib.Core.Option.{none, some}
use mathlib.Core.List.{List, [], ◌∷◌}
use text.Mathlib.Text.{find?, starts_with, char_at?}
use infra_lab.Base.Checks.{ltb, leb, ◌==◌, if◌then◌else◌}

-- `s + t`
infixr 65 ◌<>◌
abbrev pub ◌<>◌ : String → String → String
s <> t = Prim.Native.String.◌++◌ s t

-- The code points of a text.
abbrev pub codes : String → List ℕ
codes String.[] = []
codes (String.◌∷◌ c s) = code c ∷ codes s

abbrev pub is_lower : ℕ → Bool
is_lower c = leb b'a' c && leb c b'z'

abbrev pub is_upper : ℕ → Bool
is_upper c = leb b'A' c && leb c b'Z'

abbrev pub is_digit : ℕ → Bool
is_digit c = leb b'0' c && leb c b'9'

abbrev pub is_space : ℕ → Bool
is_space c = c == 32 || (leb 9 c && leb c 13) || (leb 28 c && leb c 31)

-- The character that stands in the second text where `c` stands in the first, or `c` itself.
translate : String → String → Char → Char
translate (String.◌∷◌ a from) (String.◌∷◌ b to) c =
    if code c == code a then b else translate from to c
translate _ _ c = c

map_text : (Char → Char) → String → String
map_text f String.[] = String.[]
map_text f (String.◌∷◌ c s) = String.◌∷◌ (f c) (map_text f s)

unfoldable pub upper : String → String
unfolding translate map_text
upper = map_text (translate "abcdefghijklmnopqrstuvwxyz" "ABCDEFGHIJKLMNOPQRSTUVWXYZ")

unfoldable pub lower : String → String
unfolding translate map_text
lower = map_text (translate "ABCDEFGHIJKLMNOPQRSTUVWXYZ" "abcdefghijklmnopqrstuvwxyz")

-- Without the characters at the start, or at the end, of which the test holds.
unfoldable pub trim_start : (ℕ → Bool) → String → String
trim_start p String.[] = String.[]
trim_start p (String.◌∷◌ c s) = if p (code c) then trim_start p s else String.◌∷◌ c s

abbrev keep_unless_blank : (ℕ → Bool) → Char → String → String
keep_unless_blank p c String.[] = if p (code c) then String.[] else String.◌∷◌ c String.[]
keep_unless_blank p c rest = String.◌∷◌ c rest

unfoldable pub trim_end : (ℕ → Bool) → String → String
trim_end p String.[] = String.[]
trim_end p (String.◌∷◌ c s) = keep_unless_blank p c (trim_end p s)

-- `s.strip()`
unfoldable pub strip : String → String
unfolding trim_start trim_end
strip s = trim_start is_space (trim_end is_space s)

-- `part in s`
unfoldable pub has_text : String → String → Bool
has_text s part = elim (find? s part) [ none ↦ false | some _ ↦ true ]

-- `s.startswith(part)`
unfoldable pub has_prefix : String → String → Bool
has_prefix s part = starts_with s part

abbrev pub is_blank : String → Bool
is_blank String.[] = true
is_blank (String.◌∷◌ c s) = false

add_piece : Bool → Char → List String → List String
add_piece true d pieces = String.[] ∷ pieces
add_piece false d [] = String.◌∷◌ d String.[] ∷ []
add_piece false d (p ∷ ps) = String.◌∷◌ d p ∷ ps

-- `s.split(sep)` for a separator of one character, given by its code.
unfoldable pub split : ℕ → String → List String
unfolding add_piece
split sep String.[] = String.[] ∷ []
split sep (String.◌∷◌ d s) = add_piece (code d == sep) d (split sep s)

-- `sep.join(parts)`
unfoldable pub join : String → List String → String
join sep [] = String.[]
join sep (p ∷ []) = p
join sep (p ∷ q ∷ ps) = p <> (sep <> join sep (q ∷ ps))

-- A list without its last element where that is a line feed: what `$` of a pattern allows.
abbrev pub before_newline : List ℕ → List ℕ
before_newline [] = []
before_newline (c ∷ []) = if c == 10 then [] else c ∷ []
before_newline (c ∷ d ∷ cs) = c ∷ before_newline (d ∷ cs)

abbrev pub is_word : ℕ → Bool
is_word c = is_lower c || is_upper c || is_digit c || c == b'_'

space_unless_word : Char → Char
space_unless_word c = if is_word (code c) then c else " "

-- The maximal runs of word characters in a text, with empty texts between.
unfoldable pub words : String → List String
unfolding split map_text space_unless_word
words s = split 32 (map_text space_unless_word s)

-- `s[:n]`
unfoldable pub take_text : ℕ → String → String
take_text zero s = String.[]
take_text (suc n) String.[] = String.[]
take_text (suc n) (String.◌∷◌ c s) = String.◌∷◌ c (take_text n s)

digit : ℕ → Char
digit n = elim (char_at? "0123456789" n) [ none ↦ "0" | some c ↦ c ]

show_digits : ℕ → ℕ → String → String
show_digits zero n shown = shown
show_digits (suc fuel) n shown =
    let longer = String.◌∷◌ (digit (n % 10)) shown in
    elim (n / 10 == 0) [ true ↦ longer | false ↦ show_digits fuel (n / 10) longer ]

-- `str(n)` of a natural number; it has at most `n + 1` digits.
unfoldable pub show_ℕ : ℕ → String
unfolding digit show_digits
show_ℕ n = show_digits (n + 1) n ""

-- `a <= b` of texts: the first character that differs decides.
unfoldable pub leb_codes : List ℕ → List ℕ → Bool
leb_codes [] ys = true
leb_codes (x ∷ xs) [] = false
leb_codes (x ∷ xs) (y ∷ ys) = ltb x y || (x == y && leb_codes xs ys)

unfoldable pub insert_text : String → List String → List String
insert_text s [] = s ∷ []
insert_text s (t ∷ ts) = if leb_codes (codes s) (codes t) then s ∷ t ∷ ts else t ∷ insert_text s ts

-- `sorted(names)`
unfoldable pub sort_texts : List String → List String
unfolding insert_text
sort_texts [] = []
sort_texts (s ∷ ss) = insert_text s (sort_texts ss)
