-- ===== src/Tests/Parsing.antt =====
-- The parser: requests whole, in parts, several, and hostile.
use mirror_agent.Base.{
  length, ℕ, List, Bytes, All, some, none, [], ◌∷◌, ◌++◌, ◌≡◌, refl, arith, codes, ◌+◌, pos, negsuc,
}
use mirror_agent.Go.Panic.{returned, panicked}
use mirror_agent.Go.Strings.{has_prefix, index, trim_space}
use mirror_agent.Go.Strconv.{atoi, decimal}
use mirror_agent.Go.Header.{values, get, add, canonical_key}
use mirror_agent.Tracker.Request.{
  CapturedRequest, incomplete, complete, crlf_crlf, add_lines, content_length, parse_one_request,
}
use mirror_agent.Tracker.Request.Complete.{IsFramed, parse_one_request-IsFramed}
use mirror_agent.Tracker.Request.Written.{Written, IsPlain, IsWritten, render}
use mirror_agent.Tracker.Request.Framing.{
  captured, parse_one_request-render, parse_one_request-part,
}
use mirror_agent.Tracker.Request.Fields.{Field, IsField, field_values, parse_one_request-fields}
use mirror_agent.Tracker.Request.Panics.{parse_one_request_panics}
use mirror_agent.Tracker.Batch.{starved, parse_http_requests}
use mirror_agent.Tracker.Batch.Append.{after, leftover, parse_http_requests-append}
use mirror_agent.Tracker.Batch.Ends.{IsDone, parse_http_requests-IsDone}
use mirror_agent.Tracker.Batch.Pipeline.{render_all, parse_http_requests-render_all}
use mirror_agent.Tests.Data.{post, hostile, first_part, second_part}

atoi_runs :
    (atoi (codes "-12") ≡ some (negsuc 11))
    × (atoi (codes "1x") ≡ none)
    × (atoi (codes "9223372036854775808") ≡ none)
unfolding atoi
atoi_runs = (refl, refl, refl)

canonical_runs : canonical_key (codes "content-LENGTH") ≡ codes "Content-Length"
unfolding canonical_key
canonical_runs = refl

trim_runs : trim_space (32 ∷ 0xc2 ∷ 0xa0 ∷ 65 ∷ 13 ∷ []) ≡ 65 ∷ []
unfolding trim_space
trim_runs = refl

decimal_runs : decimal 1203 ≡ codes "1203"
unfolding decimal
decimal_runs = refl

post-declared : content_length (add_lines [] post.lines) ≡ pos 2
unfolding content_length add_lines index get trim_space atoi canonical_key add
post-declared = refl

post-IsWritten : IsWritten post
post-IsWritten = record {
  plain = record {
    method_plain = omega arith;
    path_plain = omega arith;
    method_on_line = omega arith;
    path_on_line = omega arith;
    version_on_line = omega arith;
    lines_plain = ((omega arith, λ q. cc), ((omega arith, λ q. cc), tt));
  };
  declared = post-declared;
  allocable = omega arith;
  fits = omega arith;
}

hostile-IsPlain : IsPlain hostile
hostile-IsPlain = record {
  method_plain = omega arith;
  path_plain = omega arith;
  method_on_line = omega arith;
  path_on_line = omega arith;
  version_on_line = omega arith;
  lines_plain = ((omega arith, λ q. cc), tt);
}

hostile-negative : content_length (add_lines [] hostile.lines) ≡ negsuc 0
unfolding content_length add_lines index get trim_space atoi canonical_key add
hostile-negative = refl

post-body : index (render post) crlf_crlf ≡ some 44
unfolding index has_prefix
post-body = refl

-- A GET with white space around a name and its value, and with a name that stands twice.
abbrev spaced : Written
spaced = record {
  method = codes "GET";
  path = codes "/a";
  version = codes "HTTP/1.1";
  lines = codes " host :  x \t" ∷ codes "Accept:a" ∷ codes "accept: b" ∷ [];
  body = [];
}

abbrev spaced_fields : List Field
spaced_fields =
    (record {
      before = codes " host ";
      behind = codes "  x \t";
      name = codes "host";
      value = codes "x";
    })
    ∷ (record {
      before = codes "Accept";
      behind = codes "a";
      name = codes "Accept";
      value = codes "a";
    })
    ∷ (record {
      before = codes "accept";
      behind = codes " b";
      name = codes "accept";
      value = codes "b";
    })
    ∷ []

spaced-declared : content_length (add_lines [] spaced.lines) ≡ pos 0
unfolding content_length add_lines index get trim_space atoi canonical_key add
spaced-declared = refl

spaced-IsWritten : IsWritten spaced
spaced-IsWritten = record {
  plain = record {
    method_plain = omega arith;
    path_plain = omega arith;
    method_on_line = omega arith;
    path_on_line = omega arith;
    version_on_line = omega arith;
    lines_plain = ((omega arith, λ q. cc), ((omega arith, λ q. cc), ((omega arith, λ q. cc), tt)));
  };
  declared = spaced-declared;
  allocable = omega arith;
  fits = omega arith;
}

spaced-fields : All IsField spaced_fields
unfolding trim_space
spaced-fields = (
  record { first_colon = omega arith; name_is = refl; value_is = refl },
  (
    record { first_colon = omega arith; name_is = refl; value_is = refl },
    (record { first_colon = omega arith; name_is = refl; value_is = refl }, tt),
  ),
)

parse_one_request-fields_example :
    (r : CapturedRequest) × (parse_one_request (render spaced ++ codes "GET")
      ≡ returned (complete r (length (render spaced))))
    × (r.method ≡ codes "GET")
    × (r.path ≡ codes "/a")
    × (r.body ≡ [])
    × ((k : Bytes) → values r.headers k ≡ field_values k spaced_fields)
parse_one_request-fields_example =
    parse_one_request-fields spaced spaced_fields (codes "GET") spaced-IsWritten refl spaced-fields

parse_one_request-part_example : parse_one_request (codes "POST /a") ≡ returned incomplete
parse_one_request-part_example =
    parse_one_request-part post post-IsWritten (codes "POST /a")
      (codes " HTTP/1.1\r\nhost: x\r\ncontent-length: 2\r\n\r\nhi") refl (λ q. cc)

short-incomplete : parse_one_request (codes "GE") ≡ returned incomplete
unfolding parse_one_request index has_prefix
short-incomplete = refl

parse_http_requests-render_all_example :
    parse_http_requests (render_all (post ∷ post ∷ []) ++ codes "GE")
    ≡ record { requests = captured post ∷ captured post ∷ []; consumed = 100; stop = starved }
parse_http_requests-render_all_example =
    parse_http_requests-render_all (post ∷ post ∷ []) (codes "GE")
      (post-IsWritten, (post-IsWritten, tt)) short-incomplete

parse_http_requests-append_example :
    parse_http_requests (first_part ++ second_part)
    ≡ after
        (parse_http_requests first_part)
        (parse_http_requests (leftover first_part ++ second_part))
parse_http_requests-append_example = parse_http_requests-append first_part second_part

parse_http_requests-IsDone_example : IsDone (render post) (parse_http_requests (render post))
parse_http_requests-IsDone_example = parse_http_requests-IsDone (render post)

pub alone : parse_one_request (render post ++ []) ≡ returned (complete (captured post) 50)
alone = parse_one_request-render post post-IsWritten []

parse_one_request-IsFramed_example :
    (i : ℕ) × (index (render post ++ []) crlf_crlf ≡ some i)
    × IsFramed (render post ++ []) (i + 4) (captured post) 50
parse_one_request-IsFramed_example =
    parse_one_request-IsFramed (render post ++ []) (captured post) 50 alone

parse_one_request_panics_example : parse_one_request (render hostile ++ codes "x") ≡ panicked
parse_one_request_panics_example =
    parse_one_request_panics hostile (codes "x") hostile-IsPlain (rw hostile-negative tt)
