-- ===== src/Master/Cron/Meaning.antt =====
-- The cron language as abstract syntax with a meaning, and the matcher on its printed form.
use craft_stack.Prelude.{
  ℕ, ◌%◌, ◌^◌, ◌<◌, ◌≡◌, ◌≢◌, ◌↔◌, refl, ap, List, [], ◌∷◌, ◌++◌, map, Text, codes, Bool, true,
  false, ◌&&◌, none, some, arith, ltb, leb, ◌==◌, same, any, All,
}
use craft_stack.Prelude.Int.{pos}
use craft_stack.GoText.{is_digit, is_space, has_prefix, contains_byte, trim_space, fields, atoi}
use craft_stack.GoText.Laws.{
  Lacks, IsDigits, IsDigits-Lacks, IsSolid, numeral, atoi-digits, atoi-contains, contains-Lacks,
  contains-append, contains_here, before-sep, behind-sep, join, split-join, trim_space-IsSolid,
  fields-word, fields_last, All-append, All-mono,
}
use craft_stack.Master.Cron.{
  cron_part_matches, cron_field_matches, Time, cron_matches, fields_match, validate_cron_part,
}

-- A row of digits, leading zeros allowed, that fits Go's `int`.
pub record Numeral : Type 0 where
  pub first : ℕ
  pub more : Text
  pub are_digits : IsDigits (first ∷ more)
  pub fits : numeral 0 (first ∷ more) < 2 ^ 63

abbrev pub digits_of : Numeral → Text
digits_of n = n.first ∷ n.more

abbrev pub number_of : Numeral → ℕ
number_of n = numeral 0 (digits_of n)

-- "*", "*/N", "N-M" and "N"
pub data Part : Type 0 where
  every : Part
  each : Numeral → Part
  range : Numeral → Numeral → Part
  single : Numeral → Part

abbrev pub print : Part → Text
print every = codes "*"
print (each n) = b'*' ∷ b'/' ∷ digits_of n
print (range a b) = digits_of a ++ b'-' ∷ digits_of b
print (single n) = digits_of n

abbrev pub meaning : Part → ℕ → Bool
meaning every v = true
meaning (each n) v = ltb 0 (number_of n) && v % number_of n == 0
meaning (range a b) v = leb (number_of a) v && leb v (number_of b)
meaning (single n) v = v == number_of n

pub atoi-numeral : (n : Numeral) → atoi (digits_of n) ≡ some (pos (number_of n))
atoi-numeral n = atoi-digits n.first n.more n.are_digits n.fits

numeral-Lacks : (c : ℕ) (n : Numeral) → is_digit c ≡ false → Lacks c (digits_of n)
numeral-Lacks c n e = IsDigits-Lacks c (digits_of n) e n.are_digits

numeral-contains :
    (c : ℕ) (n : Numeral) → is_digit c ≡ false → contains_byte (digits_of n) c ≡ false
numeral-contains c n e = contains-Lacks c (digits_of n) (numeral-Lacks c n e)

-- The matcher agrees with the meaning on every part of the language.
pub part-print : (p : Part) (v min max : ℕ) → cron_part_matches (print p) v min max ≡ meaning p v
unfolding cron_part_matches
part-print every v min max = unfold same in refl
part-print (each n) v min max = unfold same has_prefix in ground (arith, atoi-numeral n)
part-print (range a b) v min max =
    unfold same has_prefix in
    ground (
      arith,
      a.are_digits,
      atoi-numeral a,
      atoi-numeral b,
      before-sep b'-' (digits_of a) (digits_of b) (numeral-Lacks b'-' a refl),
      behind-sep b'-' (digits_of a) (digits_of b) (numeral-Lacks b'-' a refl),
      contains-append b'-' (digits_of a) (b'-' ∷ digits_of b),
      contains_here b'-' (digits_of b),
    )
part-print (single n) v min max =
    unfold same has_prefix in
    ground (
      arith,
      n.are_digits,
      atoi-numeral n,
      numeral-contains b'-' n refl,
      numeral-contains b'/' n refl,
    )

-- The parts that ValidateCron lets through.
abbrev pub allowed : Part → ℕ → ℕ → Bool
allowed every min max = true
allowed (each n) min max = ltb 0 (number_of n) && leb (number_of n) max
allowed (range a b) min max =
    leb min (number_of a) && leb (number_of a) (number_of b) && leb (number_of b) max
allowed (single n) min max = leb min (number_of n) && leb (number_of n) max

-- On a part "*", "*/N", "N-M" or "N" with numerals that fit Go's `int`, validateCronPart answers nil
-- exactly if a step is from 1 to the maximum, and the bounds of a range or the value are in order and
-- within the minimum and the maximum.
pub validate-print :
    (p : Part) (min max : ℕ)
    → (validate_cron_part (print p) min max ≡ none) ↔ (allowed p min max ≡ true)
unfolding validate_cron_part
validate-print every min max = unfold same in (λ _. refl, λ _. refl)
validate-print (each n) min max = unfold same has_prefix in ground (arith, atoi-numeral n)
validate-print (range a b) min max =
    unfold same has_prefix in
    ground (
      arith,
      a.are_digits,
      atoi-numeral a,
      atoi-numeral b,
      before-sep b'-' (digits_of a) (digits_of b) (numeral-Lacks b'-' a refl),
      behind-sep b'-' (digits_of a) (digits_of b) (numeral-Lacks b'-' a refl),
      contains-append b'-' (digits_of a) (b'-' ∷ digits_of b),
      contains_here b'-' (digits_of b),
    )
validate-print (single n) min max =
    unfold same has_prefix in
    ground (arith, n.are_digits, atoi-numeral n, numeral-contains b'-' n refl)

-- What stands in a printed part: no blank and no comma.
abbrev IsPlain : ℕ → Type 0
IsPlain c = (is_space c ≡ false) × (c ≢ b',')

digit-IsPlain : (c : ℕ) → is_digit c ≡ true → IsPlain c
digit-IsPlain c h = ground arith

numeral-IsPlain : (n : Numeral) → All IsPlain (digits_of n)
numeral-IsPlain n =
    All-mono (λ c. is_digit c ≡ true) IsPlain (digits_of n) digit-IsPlain n.are_digits

print-IsPlain : (p : Part) → All IsPlain (print p)
print-IsPlain every = ((refl, omega arith), tt)
print-IsPlain (each n) = ((refl, omega arith), ((refl, omega arith), numeral-IsPlain n))
print-IsPlain (range a b) =
    All-append IsPlain (digits_of a) (b'-' ∷ digits_of b) (numeral-IsPlain a)
      ((refl, omega arith), numeral-IsPlain b)
print-IsPlain (single n) = numeral-IsPlain n

print-IsSolid : (p : Part) → IsSolid (print p)
print-IsSolid p =
    All-mono IsPlain (λ c. is_space c ≡ false) (print p) (λ c h. h.0) (print-IsPlain p)

print-Lacks : (p : Part) → Lacks b',' (print p)
print-Lacks p = All-mono IsPlain (λ c. c ≢ b',') (print p) (λ c h. h.1) (print-IsPlain p)

-- A field: parts between commas, one at least.
pub record Field : Type 0 where
  pub first : Part
  pub others : List Part

abbrev pub print_field : Field → Text
print_field f = join (map print (f.first ∷ f.others)) b','

abbrev pub field_meaning : Field → ℕ → Bool
field_meaning f v = any (λ p. meaning p v) (f.first ∷ f.others)

prints-lack : (ps : List Part) → All (Lacks b',') (map print ps)
prints-lack [] = tt
prints-lack (p ∷ ps) = (print-Lacks p, prints-lack ps)

any-print :
    (ps : List Part) (v min max : ℕ)
    → any (λ part. cron_part_matches (trim_space part) v min max) (map print ps)
      ≡ any (λ p. meaning p v) ps
any-print [] v min max = refl
any-print (p ∷ ps) v min max =
    rw (
      trim_space-IsSolid (print p) (print-IsSolid p),
      part-print p v min max,
      any-print ps v min max,
    )

field-print :
    (f : Field) (v min max : ℕ) → cron_field_matches (print_field f) v min max ≡ field_meaning f v
unfolding cron_field_matches
field-print f v min max =
    rw (split-join b',' (print f.first) (map print f.others) (prints-lack (f.first ∷ f.others)))
      (any-print (f.first ∷ f.others) v min max)

joined-IsSolid : (p : Part) (ps : List Part) → IsSolid (join (map print (p ∷ ps)) b',')
joined-IsSolid p [] = print-IsSolid p
joined-IsSolid p (q ∷ ps) =
    All-append (λ c. is_space c ≡ false) (print p) _ (print-IsSolid p) (refl, joined-IsSolid q ps)

print-cons : (p : Part) → (c : ℕ) × (u : Text) × (print p ≡ c ∷ u)
print-cons every = (b'*', [], refl)
print-cons (each n) = (b'*', b'/' ∷ digits_of n, refl)
print-cons (range a b) = (a.first, a.more ++ b'-' ∷ digits_of b, refl)
print-cons (single n) = (n.first, n.more, refl)

field-cons : (f : Field) → (c : ℕ) × (u : Text) × (print_field f ≡ c ∷ u)
field-cons f = go f.others
  where
    go : (ps : List Part) → (c : ℕ) × (u : Text) × (join (map print (f.first ∷ ps)) b',' ≡ c ∷ u)
    go [] = print-cons f.first
    go (q ∷ ps) =
        let (c, u, e) = print-cons f.first in
        (
          c,
          u ++ b',' ∷ join (map print (q ∷ ps)) b',',
          ap (λ s. s ++ b',' ∷ join (map print (q ∷ ps)) b',') e,
        )

word-print : (f : Field) (t : Text) → fields (print_field f ++ 32 ∷ t) ≡ print_field f ∷ fields t
word-print f t =
    let (c, u, e) = field-cons f in
    rw e (fields-word c u t (rw e at (joined-IsSolid f.first f.others)))

last-print : (f : Field) → fields (print_field f) ≡ print_field f ∷ []
last-print f =
    let (c, u, e) = field-cons f in
    rw e (fields_last c u (rw e at (joined-IsSolid f.first f.others)))

-- An expression: minute, hour, day of the month, month, day of the week.
pub record Expr : Type 0 where
  pub minute : Field
  pub hour : Field
  pub dom : Field
  pub month : Field
  pub dow : Field

abbrev pub print_expr : Expr → Text
print_expr e =
    print_field e.minute
    ++ 32
      ∷ (print_field e.hour
          ++ 32 ∷ (print_field e.dom ++ 32 ∷ (print_field e.month ++ 32 ∷ print_field e.dow)))

abbrev pub expr_meaning : Expr → Time → Bool
expr_meaning e t =
    field_meaning e.minute t.minute
    && field_meaning e.hour t.hour
    && field_meaning e.dom t.dom
    && field_meaning e.month t.month
    && field_meaning e.dow t.dow

-- On every expression of five fields, parts between commas, each "*", "*/N", "N-M" or "N" with
-- numerals that fit Go's `int`, cronMatches answers by the meaning of the expression.
pub cron_matches-print : (e : Expr) (t : Time) → cron_matches (print_expr e) t ≡ expr_meaning e t
unfolding cron_matches fields_match
cron_matches-print e t = rw (
  word-print e.minute,
  word-print e.hour,
  word-print e.dom,
  word-print e.month,
  last-print e.dow,
  field-print e.minute,
  field-print e.hour,
  field-print e.dom,
  field-print e.month,
  field-print e.dow,
)

not_star : (a s : Text) → same (a ++ b'-' ∷ s) (codes "*") ≡ false
unfolding same
not_star [] s = refl
not_star (c ∷ []) s = ground arith
not_star (c ∷ d ∷ a) s = ground arith

-- A part that has a "-" and a "/" somewhere behind it, and does not start with "*/", matches no
-- value: the branch of cronPartMatches for "N-M/S" is never reached.
pub stepped_range_never :
    (a s : Text) (v min max : ℕ)
    → Lacks b'-' a
    → contains_byte s b'/' ≡ true
    → has_prefix (a ++ b'-' ∷ s) (codes "*/") ≡ false
    → cron_part_matches (a ++ b'-' ∷ s) v min max ≡ false
unfolding cron_part_matches
stepped_range_never a s v min max h k n =
    unfold same in
    ground (
      arith,
      before-sep b'-' a s h,
      behind-sep b'-' a s h,
      contains-append b'-' a (b'-' ∷ s),
      contains_here b'-' s,
      atoi-contains b'/' s refl (omega arith) (omega arith) k,
      not_star a s,
    )
