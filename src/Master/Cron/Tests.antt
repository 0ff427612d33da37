-- ===== src/Master/Cron/Tests.antt =====
-- Runs of the cron parser.
use craft_stack.Prelude.{◌≡◌, ◌↔◌, refl, [], ◌∷◌, ◌++◌, codes, true, false, none, arith}
use craft_stack.GoText.{has_prefix, contains_byte, split, before, behind, trim_space, fields, atoi}
use craft_stack.Prelude.{same}
use craft_stack.Master.Cron.{
  Time, cron_part_matches, cron_field_matches, cron_matches, validate_cron_part,
  validate_cron_field, validate_cron,
}
use craft_stack.Master.Cron.Meaning.{
  Numeral, Part, every, each, range, single, print, allowed, validate-print, Field, Expr,
  print_expr, expr_meaning, cron_matches-print, stepped_range_never,
}
use craft_stack.Master.Cron.Satisfiable.{InRange, validate_cron-matches}

abbrev noon : Time
noon = record { minute = 30; hour = 12; dom = 1; month = 6; dow = 3 }

steps_and_lists : cron_matches (codes "*/15 9-17 1,15 * *") noon ≡ true
unfolding cron_matches cron_part_matches fields split trim_space atoi same has_prefix contains_byte
    before behind cron_field_matches
steps_and_lists = refl

accepts_lists : validate_cron (codes "*/15 9-17 1,15 * *") ≡ none
unfolding validate_cron validate_cron_part fields split trim_space atoi same has_prefix
    contains_byte before behind validate_cron_field
accepts_lists = refl

abbrev ten : Numeral
ten = record { first = b'1'; more = codes "0"; are_digits = (refl, (refl, tt)); fits = omega arith }

abbrev thirty : Numeral
thirty = record {
  first = b'3';
  more = codes "0";
  are_digits = (refl, (refl, tt));
  fits = omega arith;
}

abbrev one_part : Part → Field
one_part p = record { first = p; others = [] }

abbrev half_hours : Expr
half_hours = record {
  minute = record { first = each thirty; others = single ten ∷ [] };
  hour = one_part (range ten thirty);
  dom = one_part every;
  month = one_part every;
  dow = one_part every;
}

printed : print_expr half_hours ≡ codes "*/30,10 10-30 * * *"
printed = refl

cron_matches-print_example :
    cron_matches (print_expr half_hours) noon ≡ expr_meaning half_hours noon
cron_matches-print_example = cron_matches-print half_hours noon

validate-print_example :
    (validate_cron_part (print (range ten thirty)) 0 23 ≡ none)
    ↔ (allowed (range ten thirty) 0 23 ≡ true)
validate-print_example = validate-print (range ten thirty) 0 23

validate_cron-matches_example :
    (t : Time) × InRange t × (cron_matches (codes "*/15 9-17 1,15 * *") t ≡ true)
validate_cron-matches_example =
    validate_cron-matches (codes "*/15 9-17 1,15 * *") (cc) accepts_lists

stepped_range_never_example : cron_part_matches (codes "1" ++ b'-' ∷ codes "10/2") 4 0 59 ≡ false
unfolding contains_byte has_prefix
stepped_range_never_example =
    stepped_range_never (codes "1") (codes "10/2") 4 0 59 (omega arith) refl refl
