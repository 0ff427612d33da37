-- ===== src/Master/Cron.antt =====
-- The cron parser of internal/master/scheduler.go: cronMatches and ValidateCron.
pub mod Meaning
pub mod Satisfiable
mod Tests
use craft_stack.Prelude.{
  ℕ, suc, ◌+◌, ◌-◌, ◌%◌, List, [], ◌∷◌, Text, codes, Bool, true, false, not, ◌&&◌, ◌||◌, Option,
  none, some, ltb, leb, ◌==◌, same, length, drop, any, if◌then◌else◌,
}
use craft_stack.Prelude.Int.{ℤ, pos, negsuc, leb_ℤ, ltb_ℤ}
use craft_stack.GoText.{has_prefix, contains_byte, split, before, behind, trim_space, fields, atoi}

-- `step, err := strconv.Atoi(…); err != nil || step <= 0`: a step that may be used.
abbrev pub positive_step : Option ℤ → Option ℕ
positive_step (some (pos (suc n))) = some (suc n)
positive_step _ = none

abbrev pub step_matches : Option ℕ → ℕ → Bool
step_matches none value = false
step_matches (some step) value = value % step == 0

abbrev pub range_matches : Option ℤ → Option ℤ → ℕ → Bool
range_matches (some lo) (some hi) value = leb_ℤ lo (pos value) && leb_ℤ (pos value) hi
range_matches _ _ value = false

-- `(value-lo)%step == 0` for `lo <= value`; a `lo` below 0 adds to the value.
abbrev pub offset_matches : ℤ → ℕ → ℕ → Bool
offset_matches (pos lo) step value = (value - lo) % step == 0
offset_matches (negsuc n) step value = (value + suc n) % step == 0

abbrev pub stepped_range : Option ℤ → Option ℤ → ℕ → ℕ → Bool
stepped_range (some lo) (some hi) step value =
    leb_ℤ lo (pos value) && leb_ℤ (pos value) hi && offset_matches lo step value
stepped_range _ _ step value = false

abbrev pub plain_matches : Option ℤ → ℕ → Bool
plain_matches none value = false
plain_matches (some (pos n)) value = value == n
plain_matches (some (negsuc n)) value = false

-- The branch of cronPartMatches for a part that contains "/".
slash_matches : Text → Text → Option ℕ → ℕ → Bool
slash_matches part range_part none value = false
slash_matches part range_part (some step) value =
    if same range_part (codes "*")
    then value % step == 0
    else if contains_byte range_part b'-'
    then stepped_range (atoi (before range_part b'-')) (atoi (behind range_part b'-')) step value
    else plain_matches (atoi part) value

-- cronPartMatches
unfoldable pub cron_part_matches : Text → ℕ → ℕ → ℕ → Bool
unfolding slash_matches
cron_part_matches part value min max =
    if same part (codes "*")
    then true
    else if has_prefix part (codes "*/")
    then step_matches (positive_step (atoi (drop 2 part))) value
    else if contains_byte part b'-'
    then range_matches (atoi (before part b'-')) (atoi (behind part b'-')) value
    else if contains_byte part b'/'
    then slash_matches part (before part b'/') (positive_step (atoi (behind part b'/'))) value
    else plain_matches (atoi part) value

-- cronFieldMatches
unfoldable pub cron_field_matches : Text → ℕ → ℕ → ℕ → Bool
cron_field_matches field value min max =
    any (λ part. cron_part_matches (trim_space part) value min max) (split field b',')

-- The parts of a time.Time that cronMatches reads.
pub record Time : Type 0 where
  pub minute : ℕ
  pub hour : ℕ
  pub dom : ℕ
  pub month : ℕ
  pub dow : ℕ

unfoldable pub fields_match : List Text → Time → Bool
fields_match (f0 ∷ f1 ∷ f2 ∷ f3 ∷ f4 ∷ []) t =
    cron_field_matches f0 t.minute 0 59
    && cron_field_matches f1 t.hour 0 23
    && cron_field_matches f2 t.dom 1 31
    && cron_field_matches f3 t.month 1 12
    && cron_field_matches f4 t.dow 0 6
fields_match _ t = false

-- cronMatches
unfoldable pub cron_matches : Text → Time → Bool
unfolding fields_match
cron_matches expr t = fields_match (fields expr) t

-- The errors of ValidateCron, without the name of the field that their text starts with.
pub data CronError : Type 0 where
  field_count : ℕ → CronError
  invalid_step invalid_range invalid_value : Text → CronError
  step_out_of_range : ℤ → CronError
  range_out_of_range : ℤ → ℤ → CronError
  value_out_of_range : ℤ → CronError

-- `nil`, or the error
abbrev pub Checked : Type 0
Checked = Option CronError

abbrev pub check_step : Text → Option ℤ → ℕ → Checked
check_step part none max = some (invalid_step part)
check_step part (some step) max =
    if leb_ℤ step (pos 0) || ltb_ℤ (pos max) step then some (step_out_of_range step) else none

abbrev pub check_range : Text → Option ℤ → Option ℤ → ℕ → ℕ → Checked
check_range part (some lo) (some hi) min max =
    if ltb_ℤ lo (pos min) || ltb_ℤ (pos max) hi || ltb_ℤ hi lo
    then some (range_out_of_range lo hi)
    else none
check_range part _ _ min max = some (invalid_range part)

abbrev pub check_value : Text → Option ℤ → ℕ → ℕ → Checked
check_value part none min max = some (invalid_value part)
check_value part (some n) min max =
    if ltb_ℤ n (pos min) || ltb_ℤ (pos max) n then some (value_out_of_range n) else none

-- validateCronPart
unfoldable pub validate_cron_part : Text → ℕ → ℕ → Checked
validate_cron_part part min max =
    if same part (codes "*")
    then none
    else if has_prefix part (codes "*/")
    then check_step part (atoi (drop 2 part)) max
    else if contains_byte part b'-'
    then check_range part (atoi (before part b'-')) (atoi (behind part b'-')) min max
    else check_value part (atoi part) min max

abbrev pub or_else : Checked → Checked → Checked
or_else none next = next
or_else (some e) next = some e

validate_parts : List Text → ℕ → ℕ → Checked
validate_parts [] min max = none
validate_parts (part ∷ parts) min max =
    or_else (validate_cron_part (trim_space part) min max) (validate_parts parts min max)

-- validateCronField
unfoldable pub validate_cron_field : Text → ℕ → ℕ → Checked
unfolding validate_parts
validate_cron_field field min max = validate_parts (split field b',') min max

unfoldable pub validate_fields : List Text → Checked
validate_fields (f0 ∷ f1 ∷ f2 ∷ f3 ∷ f4 ∷ []) = or_else (validate_cron_field f0 0 59) (
    or_else (validate_cron_field f1 0 23) (
      or_else (validate_cron_field f2 1 31)
        (or_else (validate_cron_field f3 1 12) (validate_cron_field f4 0 6))))
validate_fields fs = some (field_count (length fs))

-- ValidateCron
unfoldable pub validate_cron : Text → Checked
unfolding validate_fields
validate_cron expr = if same expr [] then none else validate_fields (fields expr)
