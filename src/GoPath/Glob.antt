-- ===== src/GoPath/Glob.antt =====
-- Go's filepath.Match on Unix, by bytes: `*` and `?` stay within an element, `[..]` is a class, `\`
-- takes the next byte as it is. A pattern is cut into chunks, each behind an optional `*`, and a chunk
-- stays where it matches first, as in Go. A malformed pattern matches nothing.
use craft_stack.Prelude.{
  ℕ, zero, suc, List, [], ◌∷◌, Text, codes, Bool, true, false, not, ◌&&◌, ◌||◌, ◌==◌, ◌≡◌, refl,
  leb, Option, none, some, length, any, same, if◌then◌else◌,
}
use craft_stack.GoText.{contains_byte}

pub data Item : Type 0 where
  star any_one : Item
  exactly : ℕ → Item
  one_of : Bool → List (ℕ × ℕ) → Item

-- getEsc: an end of a range and what follows it
unfoldable pub get_esc : Text → Option (ℕ × Text)
get_esc [] = none
get_esc (c ∷ []) = none
get_esc (c ∷ d ∷ s) =
    if c == b'-' || c == b']'
    then none
    else if c == b'\\'
    then (if same s [] then none else some (d, s))
    else some (c, d ∷ s)

unfoldable pub range_end : ℕ → Text → Option ((ℕ × ℕ) × Text)
unfolding get_esc
range_end lo [] = none
range_end lo (c ∷ s) =
    if c == b'-'
    then elim (get_esc s) [ none ↦ none | some (hi, t) ↦ some ((lo, hi), t) ]
    else some ((lo, lo), c ∷ s)

unfoldable pub one_range : Text → Option ((ℕ × ℕ) × Text)
unfolding get_esc range_end
one_range s = elim (get_esc s) [ none ↦ none | some (lo, t) ↦ range_end lo t ]

abbrev pub closes : List (ℕ × ℕ) → Text → Option Text
closes [] s = none
closes (r ∷ rs) [] = none
closes (r ∷ rs) (c ∷ s) = if c == b']' then some s else none

-- The ranges of a class up to its `]`, and what follows it
unfoldable pub ranges : ℕ → List (ℕ × ℕ) → Text → Option (List (ℕ × ℕ) × Text)
unfolding one_range
ranges zero rs s = none
ranges (suc n) rs s = elim (closes rs s) [
  | some t ↦ some (rs, t)
  | none ↦ elim (one_range s) [ none ↦ none | some (r, t) ↦ ranges n (r ∷ rs) t ]
]

abbrev pub class_of : Text → Option (Item × Text)
class_of [] = none
class_of (c ∷ s) =
    if c == b'^'
    then elim (ranges (length s) [] s) [ none ↦ none | some (rs, t) ↦ some (one_of true rs, t) ]
    else elim (ranges (suc (length s)) [] (c ∷ s)) [
      | none ↦ none
      | some (rs, t) ↦ some (one_of false rs, t)
    ]

abbrev pub escaped : Text → Option (Item × Text)
escaped [] = none
escaped (c ∷ s) = some (exactly c, s)

abbrev pub item_of : ℕ → Text → Option (Item × Text)
item_of c s =
    if c == b'*'
    then some (star, s)
    else if c == b'?'
    then some (any_one, s)
    else if c == b'['
    then class_of s
    else if c == b'\\'
    then escaped s
    else some (exactly c, s)

-- The items of a pattern; every item takes a byte, so that its length is fuel enough.
unfoldable pub items : ℕ → Text → Option (List Item)
unfolding ranges
items n [] = some []
items zero (c ∷ s) = none
items (suc n) (c ∷ s) = elim (item_of c s) [
  | none ↦ none
  | some (i, t) ↦ elim (items n t) [ none ↦ none | some is ↦ some (i ∷ is) ]
]

abbrev pub add_item : Item → List (Bool × List Item) → List (Bool × List Item)
add_item star [] = (true, []) ∷ []
add_item star ((false, is) ∷ cs) = (true, is) ∷ cs
add_item star ((true, []) ∷ cs) = (true, []) ∷ cs
add_item star ((true, i ∷ is) ∷ cs) = (true, i ∷ is) ∷ cs
add_item i [] = (false, i ∷ []) ∷ []
add_item i ((false, is) ∷ cs) = (false, i ∷ is) ∷ cs
add_item i ((true, is) ∷ cs) = (false, i ∷ []) ∷ (true, is) ∷ cs

-- scanChunk, for the whole pattern: whether a `*` stands before a chunk, and its items
unfoldable pub chunks_of : List Item → List (Bool × List Item)
chunks_of [] = []
chunks_of (i ∷ is) = add_item i (chunks_of is)

abbrev pub fits : Item → ℕ → Bool
fits star c = false
fits any_one c = not (c == b'/')
fits (exactly d) c = d == c
fits (one_of negated rs) c =
    if negated
    then not (any (λ r. leb r.0 c && leb c r.1) rs)
    else any (λ r. leb r.0 c && leb c r.1) rs

-- matchChunk: what is left of the name behind a chunk
unfoldable pub match_chunk : List Item → Text → Option Text
match_chunk [] name = some name
match_chunk (i ∷ is) [] = none
match_chunk (i ∷ is) (c ∷ name) = let rest = match_chunk is name in if fits i c then rest else none

-- A match of the last chunk leaves nothing.
abbrev pub accepted : Bool → Option Text → Option Text
accepted last none = none
accepted last (some t) = if last && not (same t []) then none else some t

-- The positions behind a `*`
unfoldable pub seek : Bool → List Item → Text → Option Text
unfolding match_chunk
seek last is [] = accepted last (match_chunk is [])
seek last is (c ∷ name) = elim (accepted last (match_chunk is (c ∷ name))) [
  | some t ↦ some t
  | none ↦ elim (c == b'/') [ true ↦ none | false ↦ seek last is name ]
]

abbrev pub is_last : List (Bool × List Item) → Bool
is_last [] = true
is_last (c ∷ cs) = false

unfoldable pub match_chunks : List (Bool × List Item) → Text → Bool
unfolding match_chunk seek
match_chunks [] name = same name []
match_chunks ((true, []) ∷ cs) name = not (contains_byte name b'/')
match_chunks ((true, i ∷ is) ∷ cs) name = elim (seek (is_last cs) (i ∷ is) name) [
  | none ↦ false
  | some t ↦ match_chunks cs t
]
match_chunks ((false, is) ∷ cs) name = elim (accepted (is_last cs) (match_chunk is name)) [
  | none ↦ false
  | some t ↦ match_chunks cs t
]

-- filepath.Match, with an error as no match
unfoldable pub match_path : Text → Text → Bool
unfolding items chunks_of match_chunks
match_path pattern name = elim (items (length pattern) pattern) [
  | none ↦ false
  | some is ↦ match_chunks (chunks_of is) name
]

samples :
    (match_path (codes "*.tmp") (codes "a.b.tmp") ≡ true)
    × (match_path (codes "*.tmp") (codes "d/a.tmp") ≡ false)
    × (match_path (codes "d/?[a-c]*") (codes "d/xbyz") ≡ true)
    × (match_path (codes "[^a-c]") (codes "b") ≡ false)
    × (match_path (codes "a\\*b") (codes "a*b") ≡ true)
    × (match_path (codes "[a") (codes "a") ≡ false)
unfolding match_path items chunks_of match_chunks match_chunk seek same contains_byte ranges
    one_range range_end get_esc
samples = (refl, refl, refl, refl, refl, refl)
