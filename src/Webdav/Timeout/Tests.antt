-- ===== src/Webdav/Timeout/Tests.antt =====
-- Timeout headers.
use cloudreve.Prelude.{
  ◌*◌, ◌≡◌, refl, ◌++◌, none, some, pos, Bytes, codes, eqb, has_prefix, index_byte, format_uint,
  arith,
}
use cloudreve.Webdav.Timeout.{
  infinite_timeout, parse_timeout, parse_seconds, parse_int, digits_from,
}
use cloudreve.Webdav.Timeout.Seconds.{parse_timeout-format_uint}

abbrev keep : Bytes → Bytes
keep s = s

first_of_two : parse_timeout keep (codes "Infinite,Second-5") ≡ some infinite_timeout
unfolding parse_timeout eqb index_byte
first_of_two = refl

minutes : parse_timeout keep (codes "Second-90") ≡ some (pos 90000000000)
unfolding parse_timeout parse_seconds parse_int digits_from eqb index_byte has_prefix
minutes = refl

too_long : parse_timeout keep (codes "Second-4294967296") ≡ none
unfolding parse_timeout parse_seconds parse_int digits_from eqb index_byte has_prefix
too_long = refl

parse_timeout-format_uint_example :
    parse_timeout keep (codes "Second-" ++ format_uint 90) ≡ some (pos (90 * 1000000000))
parse_timeout-format_uint_example = parse_timeout-format_uint keep 90 (omega arith) refl
