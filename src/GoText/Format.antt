-- ===== src/GoText/Format.antt =====
-- What the program uses of Go's fmt for numbers: Sscanf and Sprintf with "%d", and "%v" of a bool.
use craft_stack.Prelude.{
  ℕ, zero, suc, ◌+◌, ◌/◌, ◌%◌, [], ◌∷◌, Text, codes, Bool, true, false, not, ◌&&◌, ◌||◌, Option,
  none, some, ◌==◌, ltb, same, if◌then◌else◌, ◌≡◌, refl,
}
use craft_stack.Prelude.Int.{ℤ, pos, negsuc}
use craft_stack.GoText.{atoi, is_digit}

-- Scanning skips blanks, but no line feed
unfoldable pub skip_blanks : Text → Text
skip_blanks [] = []
skip_blanks (c ∷ s) =
    let rest = skip_blanks s in
    if c == 32 || c == 9 || c == 11 || c == 12 || (c == 13 && not (same (first s) (b'\n' ∷ [])))
    then rest
    else c ∷ s
  where
    first : Text → Text
    first [] = []
    first (d ∷ t) = d ∷ []

unfoldable pub leading_digits : Text → Text
leading_digits [] = []
leading_digits (c ∷ s) = let rest = leading_digits s in if is_digit c then c ∷ rest else []

abbrev pub number_token : Text → Text
number_token [] = []
number_token (c ∷ s) =
    if c == b'-' || c == b'+' then c ∷ leading_digits s else leading_digits (c ∷ s)

-- fmt.Sscanf with "%d"; what follows the digits is not read
unfoldable pub scan_int : Text → Option ℤ
unfolding skip_blanks leading_digits
scan_int s = atoi (number_token (skip_blanks s))

-- %v of a bool
abbrev pub show_bool : Bool → Text
show_bool true = codes "true"
show_bool false = codes "false"

-- The decimal digits of a number below 10 ^ k, before `s`
unfoldable pub digits : ℕ → ℕ → Text → Text
digits zero n s = s
digits (suc k) n s =
    let longer = digits k (n / 10) ((b'0' + n % 10) ∷ s) in
    if ltb n 10 then (b'0' + n) ∷ s else longer

-- %d of an int; 20 digits are enough for 64 bits
unfoldable pub show_int : ℤ → Text
unfolding digits
show_int (pos n) = digits 20 n []
show_int (negsuc n) = b'-' ∷ digits 20 (n + 1) []

scans :
    (scan_int (codes " 80abc") ≡ some (pos 80))
    × (scan_int (codes "-3") ≡ some (negsuc 2))
    × (scan_int (codes "abc") ≡ none)
unfolding scan_int skip_blanks leading_digits same atoi
scans = (refl, refl, refl)

shows : (show_int (pos 305) ≡ codes "305") × (show_int (negsuc 6) ≡ codes "-7")
unfolding show_int digits
shows = (refl, refl)
