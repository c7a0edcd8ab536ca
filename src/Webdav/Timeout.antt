-- ===== src/Webdav/Timeout.antt =====
-- pkg/webdav/lock.go: parseTimeout, which reads the Timeout header. A duration is a number of
-- nanoseconds, -1 for ever.
pub mod Seconds
mod Tests
use cloudreve.Prelude.{
  ℕ, zero, suc, ◌+◌, ◌-◌, ◌*◌, ◌^◌, Bool, true, false, ◌&&◌, not, Option, none, some, List, [], ◌∷◌,
  drop, take, ◌>>=◌, ℤ, pos, negsuc, Bytes, codes, eqb, has_prefix, index_byte, ltb, leb,
  if◌then◌else◌,
}

abbrev pub infinite_timeout : ℤ
infinite_timeout = negsuc 0

abbrev pub is_digit : ℕ → Bool
is_digit c = leb b'0' c && leb c b'9'

-- The number that digits stand for, after those of `value`.
unfoldable pub digits_from : ℕ → Bytes → Option ℕ
digits_from value [] = some value
digits_from value (c ∷ s) =
    let rest = digits_from (value * 10 + (c - b'0')) s in if is_digit c then rest else none

-- `strconv.ParseInt(s, 10, 64)` of a text that starts with a digit.
unfoldable pub parse_int : Bytes → Option ℕ
unfolding digits_from
parse_int s = digits_from 0 s >>= λ n. if ltb n (2 ^ 63) then some n else none

abbrev pub starts_with_digit : Bytes → Bool
starts_with_digit [] = false
starts_with_digit (c ∷ s) = is_digit c

-- The number of seconds.
unfoldable pub parse_seconds : Bytes → Option ℤ
unfolding parse_int
parse_seconds s =
    if starts_with_digit s
    then (parse_int s >>= λ n. (if ltb (2 ^ 32 - 1) n then none else some (pos (n * 1000000000))))
    else none

abbrev pub before_comma : Bytes → Bytes
before_comma s = elim (index_byte s b',') [ none ↦ s | some i ↦ take i s ]

-- `none` for errInvalidTimeout.
unfoldable pub parse_timeout : (Bytes → Bytes) → Bytes → Option ℤ
unfolding parse_seconds
parse_timeout trim_space [] = some infinite_timeout
parse_timeout trim_space (c ∷ rest) =
    let s = trim_space (before_comma (c ∷ rest)) in
    if eqb s (codes "Infinite")
    then some infinite_timeout
    else (if not (has_prefix s (codes "Second-")) then none else parse_seconds (drop 7 s))
