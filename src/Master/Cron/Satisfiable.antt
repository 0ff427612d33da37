-- ===== src/Master/Cron/Satisfiable.antt =====
-- What ValidateCron accepts, cronMatches can match.
use native.Mathlib.Nat.{mod_self}
use craft_stack.Prelude.{
  ℕ, ◌≤◌, ◌≡◌, ◌≢◌, refl, List, [], ◌∷◌, Text, codes, true, Option, none, some, arith, same,
  same_iff, drop, if◌then◌else◌,
}
use craft_stack.Prelude.Int.{ℤ, pos_part}
use craft_stack.GoText.{has_prefix, contains_byte, before, trim_space, fields, atoi}
use craft_stack.GoText.Laws.{atoi-contains, split-cons}
use craft_stack.Master.Cron.{
  cron_part_matches, cron_field_matches, Time, cron_matches, fields_match, validate_cron_part,
  validate_parts, validate_cron_field, validate_fields, validate_cron,
}

abbrev value_of : Option ℤ → ℕ
value_of none = 0
value_of (some n) = pos_part n

-- A value that an accepted part matches.
sample : Text → ℕ → ℕ
sample part min =
    if same part (codes "*")
    then min
    else if has_prefix part (codes "*/")
    then value_of (atoi (drop 2 part))
    else if contains_byte part b'-'
    then value_of (atoi (before part b'-'))
    else value_of (atoi part)

sample-matches :
    (part : Text) (min max : ℕ)
    → validate_cron_part part min max ≡ none
    → min ≤ 1
    → min ≤ max
    → (min ≤ sample part min)
      × (sample part min ≤ max)
      × (cron_part_matches part (sample part min) min max ≡ true)
unfolding sample cron_part_matches validate_cron_part
sample-matches part min max v small h = ground (
  arith,
  mod_self (value_of (atoi (drop 2 part))),
  atoi-contains b'/' part refl (omega arith) (omega arith),
)

field-matches :
    (field : Text) (min max : ℕ)
    → validate_cron_field field min max ≡ none
    → min ≤ 1
    → min ≤ max
    → (v : ℕ) × (min ≤ v) × (v ≤ max) × (cron_field_matches field v min max ≡ true)
unfolding validate_cron_field cron_field_matches
field-matches field min max h small le =
    let (p, ps, e) = split-cons b',' field in
    let part = trim_space p in
    let (lo, hi, m) = sample-matches part min max (first_ok p ps (rw e at h)) small le in
    (sample part min, lo, hi, rw (e, m))
  where
    first_ok :
        (p : Text) (ps : List Text)
        → validate_parts (p ∷ ps) min max ≡ none
        → validate_cron_part (trim_space p) min max ≡ none
    first_ok p ps h = ground arith

-- Every field of the time is one that its clock or calendar can show.
pub record InRange (t : Time) : Type 0 where
  pub minute : t.minute ≤ 59
  pub hour : t.hour ≤ 23
  pub dom : (1 ≤ t.dom) × (t.dom ≤ 31)
  pub month : (1 ≤ t.month) × (t.month ≤ 12)
  pub dow : t.dow ≤ 6

fields-match :
    (fs : List Text)
    → validate_fields fs ≡ none
    → (t : Time) × InRange t × (fields_match fs t ≡ true)
unfolding validate_fields fields_match
fields-match (f0 ∷ f1 ∷ f2 ∷ f3 ∷ f4 ∷ []) h =
    let (v0, _, h0, m0) = field-matches f0 0 59 (ground arith) (omega arith) (omega arith) in
    let (v1, _, h1, m1) = field-matches f1 0 23 (ground arith) (omega arith) (omega arith) in
    let (v2, l2, h2, m2) = field-matches f2 1 31 (ground arith) (omega arith) (omega arith) in
    let (v3, l3, h3, m3) = field-matches f3 1 12 (ground arith) (omega arith) (omega arith) in
    let (v4, _, h4, m4) = field-matches f4 0 6 (ground arith) (omega arith) (omega arith) in
    (
      record { minute = v0; hour = v1; dom = v2; month = v3; dow = v4 },
      record { minute = h0; hour = h1; dom = (l2, h2); month = (l3, h3); dow = h4 },
      rw (m0, m1, m2, m3, m4),
    )
fields-match [] h = cc
fields-match (f0 ∷ []) h = cc
fields-match (f0 ∷ f1 ∷ []) h = cc
fields-match (f0 ∷ f1 ∷ f2 ∷ []) h = cc
fields-match (f0 ∷ f1 ∷ f2 ∷ f3 ∷ []) h = cc
fields-match (f0 ∷ f1 ∷ f2 ∷ f3 ∷ f4 ∷ f5 ∷ fs) h = cc

-- An expression that is not empty and that ValidateCron accepts matches some minute, hour, day,
-- month and weekday in their ranges, taken one by one (a 31 February counts).
pub validate_cron-matches :
    (expr : Text)
    → expr ≢ []
    → validate_cron expr ≡ none
    → (t : Time) × InRange t × (cron_matches expr t ≡ true)
unfolding validate_cron cron_matches
validate_cron-matches expr ne h = fields-match (fields expr) (ground (arith, same_iff expr []))
