-- ===== src/Agent/Containers/Memory.antt =====
-- computeDockerMemory of internal/agent/util.go: the memory limit of a container.
use craft_stack.Prelude.{
  ℕ, zero, suc, ◌+◌, ◌-◌, ◌*◌, ◌/◌, ◌%◌, ◌^◌, [], ◌++◌, Text, codes, Bool, true, false, not, ◌&&◌,
  Option, none, some, ◌==◌, ltb, leb, same, map, take, length, if◌then◌else◌,
}
use craft_stack.Prelude.Int.{ℤ, pos, negsuc, pos_part, neg_part, ltb_ℤ}
use craft_stack.GoText.{has_suffix, trim_space}
use craft_stack.GoText.Format.{scan_int, show_int}

-- strings.ToUpper
abbrev pub to_upper : Text → Text
to_upper = map (λ c. if leb b'a' c && leb c b'z' then c - 32 else c)

-- The 64 bits of a product, as an int
abbrev pub signed_64 : ℕ → ℤ
signed_64 n =
    if ltb (n % 2 ^ 64) (2 ^ 63) then pos (n % 2 ^ 64) else negsuc (2 ^ 64 - 1 - n % 2 ^ 64)

abbrev pub from_parts : ℕ → ℕ → ℤ
from_parts p zero = pos p
from_parts p (suc n) = negsuc n

-- Division of an int, towards zero
abbrev pub quotient : ℤ → ℕ → ℤ
quotient n d = from_parts (pos_part n / d) (neg_part n / d)

abbrev pub divides : ℕ → ℤ → Bool
divides d n = (pos_part n + neg_part n) % d == 0

abbrev pub megabytes : ℤ → Text
megabytes n = show_int n ++ codes "M"

abbrev pub gigabytes : ℤ → Text
gigabytes n = show_int (quotient n 1024) ++ codes "G"

-- One and a half times a number of gigabytes, in megabytes, and of megabytes
abbrev pub scaled_g : ℕ → Text
scaled_g val =
    if divides 1024 (quotient (signed_64 (val * 1024 * 3)) 2)
    then gigabytes (quotient (signed_64 (val * 1024 * 3)) 2)
    else megabytes (quotient (signed_64 (val * 1024 * 3)) 2)

abbrev pub scaled_m : ℕ → Text
scaled_m val =
    if not (ltb_ℤ (quotient (signed_64 (val * 3)) 2) (pos 1024))
      && divides 1024 (quotient (signed_64 (val * 3)) 2)
    then gigabytes (quotient (signed_64 (val * 3)) 2)
    else megabytes (quotient (signed_64 (val * 3)) 2)

abbrev pub scaled : Bool → Option ℤ → Text
scaled in_g none = []
scaled in_g (some n) =
    if ltb_ℤ (pos 0) n then (if in_g then scaled_g (pos_part n) else scaled_m (pos_part n)) else []

-- Without the last byte
abbrev pub without_last : Text → Text
without_last s = take (length s - 1) s

memory_of : Text → Text
memory_of upper =
    if same upper []
    then []
    else if has_suffix upper (codes "G")
    then scaled true (scan_int (without_last upper))
    else if has_suffix upper (codes "M")
    then scaled false (scan_int (without_last upper))
    else scaled false (scan_int upper)

-- computeDockerMemory
unfoldable pub compute_docker_memory : Text → Text
unfolding memory_of
compute_docker_memory s = memory_of (to_upper (trim_space s))
