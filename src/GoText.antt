-- ===== src/GoText.antt =====
-- What the program uses of Go's `strings`, `strconv` and `fmt`, on byte strings. Case folding and
-- white space are those of ASCII.
pub mod Laws
pub mod Format
use craft_stack.Prelude.{
  ℕ, zero, suc, ◌+◌, ◌-◌, ◌*◌, ◌^◌, List, [], ◌∷◌, ◌++◌, map, Text, Bool, true, false, ◌&&◌, ◌||◌,
  Option, none, some, ltb, leb, ◌==◌, same, length, take, drop, if◌then◌else◌,
}
use craft_stack.Prelude.Int.{ℤ, pos, negsuc}

-- strings.HasPrefix(s, p)
unfoldable pub has_prefix : Text → Text → Bool
has_prefix s [] = true
has_prefix [] (b ∷ p) = false
has_prefix (a ∷ s) (b ∷ p) = a == b && has_prefix s p

-- strings.HasSuffix(s, p)
unfoldable pub has_suffix : Text → Text → Bool
unfolding same
has_suffix s p = leb (length p) (length s) && same (drop (length s - length p) s) p

-- strings.Contains(s, c) for one byte
unfoldable pub contains_byte : Text → ℕ → Bool
contains_byte [] c = false
contains_byte (x ∷ s) c = x == c || contains_byte s c

abbrev pub extend_first : ℕ → List Text → List Text
extend_first x [] = (x ∷ []) ∷ []
extend_first x (p ∷ ps) = (x ∷ p) ∷ ps

-- strings.Split(s, c) for one byte
unfoldable pub split : Text → ℕ → List Text
split [] c = [] ∷ []
split (x ∷ s) c = let rest = split s c in if x == c then [] ∷ rest else extend_first x rest

-- The parts of strings.SplitN(s, c, 2), where `s` contains `c`.
unfoldable pub before : Text → ℕ → Text
before [] c = []
before (x ∷ s) c = let rest = before s c in if x == c then [] else x ∷ rest

unfoldable pub behind : Text → ℕ → Text
behind [] c = []
behind (x ∷ s) c = if x == c then s else behind s c

abbrev pub is_space : ℕ → Bool
is_space c = (leb 9 c && leb c 13) || c == 32

trim_left : Text → Text
trim_left [] = []
trim_left (c ∷ s) = if is_space c then trim_left s else c ∷ s

blank_or : ℕ → Text → Text
blank_or c [] = if is_space c then [] else c ∷ []
blank_or c (d ∷ s) = c ∷ d ∷ s

trim_right : Text → Text
unfolding blank_or
trim_right [] = []
trim_right (c ∷ s) = blank_or c (trim_right s)

-- strings.TrimSpace
unfoldable pub trim_space : Text → Text
unfolding trim_left trim_right
trim_space s = trim_right (trim_left s)

flush : Text → List Text → List Text
flush [] ws = ws
flush (c ∷ w) ws = (c ∷ w) ∷ ws

fields_from : Text → Text → List Text
unfolding flush
fields_from w [] = flush w []
fields_from w (c ∷ s) = elim (is_space c) [
  | true ↦ flush w (fields_from [] s)
  | false ↦ fields_from (w ++ c ∷ []) s
]

-- strings.Fields
unfoldable pub fields : Text → List Text
unfolding fields_from
fields s = fields_from [] s

abbrev pub is_digit : ℕ → Bool
is_digit c = leb b'0' c && leb c b'9'

digits_value : ℕ → Text → Option ℕ
digits_value acc [] = some acc
digits_value acc (c ∷ s) =
    let rest = digits_value (acc * 10 + (c - b'0')) s in if is_digit c then rest else none

unsigned : Text → Option ℕ
unfolding digits_value
unsigned [] = none
unsigned (c ∷ s) = digits_value 0 (c ∷ s)

positive : Option ℕ → Option ℤ
positive none = none
positive (some n) = if ltb n (2 ^ 63) then some (pos n) else none

negated : ℕ → ℤ
negated zero = pos 0
negated (suc n) = negsuc n

negative : Option ℕ → Option ℤ
unfolding negated
negative none = none
negative (some n) = if leb n (2 ^ 63) then some (negated n) else none

-- strconv.Atoi; `none` is an error
unfoldable pub atoi : Text → Option ℤ
unfolding unsigned positive negative
atoi [] = none
atoi (c ∷ s) =
    if c == b'-'
    then negative (unsigned s)
    else if c == b'+'
    then positive (unsigned s)
    else positive (unsigned (c ∷ s))

-- strings.ToLower
unfoldable pub to_lower : Text → Text
to_lower = map (λ c. if leb b'A' c && leb c b'Z' then c + 32 else c)
