-- ===== src/Webdav/If/Tests.antt =====
-- If headers, with and without a resource tag.
use cloudreve.Prelude.{◌≡◌, refl, true, false, [], ◌∷◌, Bytes, codes, eqb}
use cloudreve.Webdav.If.{
  failed, parsed, lex, condition_of, parse_condition, conditions_loop, parse_list,
  no_tag_lists_loop, tagged_lists_loop, parse_if_header,
}
use cloudreve.Webdav.If.Total.{Ended, parse_if_header-Ended}

abbrev keep : Bytes → Bytes
keep s = s

abbrev one_token : Bytes
one_token = codes "(<a> Not [b])"

token_and_etag :
    parse_if_header keep one_token
    ≡ parsed (
        record {
          resource_tag = [];
          conditions =
              record { negated = false; token = codes "a"; etag = [] }
              ∷ record { negated = true; token = []; etag = codes "b" }
              ∷ [];
        }
        ∷ [])
unfolding parse_if_header no_tag_lists_loop parse_list conditions_loop parse_condition condition_of
    lex eqb
token_and_etag = refl

tagged :
    parse_if_header keep (codes "</r> (<a>)")
    ≡ parsed (
        record {
          resource_tag = codes "/r";
          conditions = record { negated = false; token = codes "a"; etag = [] } ∷ [];
        }
        ∷ [])
unfolding parse_if_header tagged_lists_loop parse_list conditions_loop parse_condition condition_of
    lex eqb
tagged = refl

no_condition : parse_if_header keep (codes "()") ≡ failed
unfolding parse_if_header no_tag_lists_loop parse_list conditions_loop parse_condition condition_of
    lex eqb
no_condition = refl

parse_if_header-Ended_example : Ended (parse_if_header keep one_token)
parse_if_header-Ended_example = parse_if_header-Ended keep one_token
