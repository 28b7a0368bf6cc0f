-- ===== src/Http/Tests.antt =====
-- The theorems on http/ at concrete requests.
use sinetlib.Base.{
  ◌≡◌, ◌<◌, ◌^◌, ◌∙◌, arith, refl, ap, length, true, some, List, [], ◌∷◌, ◌++◌, Bytes, codes, equal,
  insert, lookup,
}
use sinetlib.Http.Parser.Fields.{AreFields, IsLine, crlf, more_fields, no_fields, render_fields}
use sinetlib.Http.Parser.Whole.{parse_request_form, parse_request_whole, stored}
use sinetlib.Http.Parser.Input.{bytes_source, buffer_source, Alike, parse_request-Alike}
use sinetlib.Http.Parser.Line.{IsRequestLine, parse_request_line_accepts}
use sinetlib.Http.Parser.LineSound.{parse_request_line_sound}
use sinetlib.Http.Parser.Loop.{Ends, start, parse_request_total}
use sinetlib.Http.Parser.Resume.{parse_request_resumes, view_of}
use sinetlib.Http.Parser.Query.{
  AreParameters, more_parameters, no_parameters, add_parameters-render,
}
use sinetlib.Http.Parser.Stoi.{stoi_size, stoi_signed, stoi_digits, digits_value, is_digit}
use sinetlib.Http.Parser.{
  Parser, Run, Round, stop, parse_request, parse_loop, round, on_request_line, on_header,
  parse_request_line, line_loop, line_method, line_url, line_version, find_space, set_target,
  add_parameter, add_parameters, header, got_all, finish, new_parser,
}
use sinetlib.Http.Request.{
  HttpRequest, set_method, method_named, Method, Version, get, http11, new_request, set_version,
  add_query, trim_end, skip_spaces, is_space, is_valid, method_str, get_header,
}
use sinetlib.Net.Buffer.Contents.{Appends, append-Appends, readable-new}
use sinetlib.Net.Buffer.Valid.{IsValid, new-IsValid}
use sinetlib.Net.Connection.{Connection, new_connection}
use sinetlib.Net.Buffer
use sinetlib.Net.Buffer.{Buffer, find_byte, search_crlf, found_before}

abbrev pub sample_line : Bytes
sample_line = codes "GET /a?x=1 HTTP/1.1"

abbrev pub sample_target : Bytes
sample_target = codes "/a?x=1"

abbrev pub sample_fields : List (Bytes × Bytes)
sample_fields = (codes "Host", codes " h") ∷ []

pub sample_IsRequestLine : IsRequestLine sample_line get sample_target http11
unfolding find_byte method_str is_valid
sample_IsRequestLine = record { text = refl; known = refl; no_space = refl; dated = λ h. cc }

pub sample_IsLine : IsLine sample_line
unfolding find_byte
sample_IsLine = refl

pub sample_AreFields : AreFields sample_fields
unfolding find_byte
sample_AreFields = more_fields (record { name = refl; line = refl }) no_fields

parse_request_line_accepts_example : parse_request_line new_parser sample_line ≡ (
  true,
  record new_parser {
    line_state = finish;
    request = set_version (set_target (record new_request { method = get }) sample_target) http11;
  },
)
parse_request_line_accepts_example =
    parse_request_line_accepts new_parser get sample_target http11 refl sample_IsRequestLine

parse_request_line_sound_example :
    (m : Method) × (target : Bytes) × (v : Version) × IsRequestLine sample_line m target v
parse_request_line_sound_example =
    parse_request_line_sound new_parser sample_line refl
      (ap (λ r. r.0) parse_request_line_accepts_example)

-- What the parser keeps of the sample.
abbrev pub sample_request : HttpRequest
sample_request = record {
  method = get;
  version = http11;
  path = codes "/a";
  querys = (codes "x", codes "1") ∷ [];
  headers = (codes "Host", codes "h") ∷ [];
  receive_time = 7;
}

abbrev sample_parser : Parser
sample_parser = record {
  state = got_all;
  line_state = finish;
  request = sample_request;
  body_length = 0;
}

abbrev pub next_bytes : Bytes
next_bytes = codes "GET"

abbrev pub sample_text : Bytes
sample_text = codes "GET /a?x=1 HTTP/1.1\r\nHost: h\r\n\r\nGET"

pub sample_no_length :
    get_header
      (stored 7 new_request get sample_target http11 sample_fields)
      (codes "Content-Length")
    ≡ []
unfolding set_target add_parameters add_parameter add_query insert equal find_byte trim_end
    skip_spaces is_space get_header lookup
sample_no_length = refl

parse_request_whole_example :
    parse_request bytes_source 7 new_parser sample_text
    ≡ some (
        stop (record {
          parser = record sample_parser {
            request = stored 7 new_request get sample_target http11 sample_fields;
          };
          buf = next_bytes;
          ok = some true;
        }))
parse_request_whole_example =
    parse_request_whole 7 new_parser refl refl sample_IsRequestLine sample_IsLine sample_AreFields
      next_bytes sample_no_length

-- The first half of the sample, and the rest of it.
abbrev first_half : Bytes
first_half = codes "GET /a?x=1 HTTP/1.1\r\nHo"

abbrev second_half : Bytes
second_half = codes "st: h\r\n\r\nGET"

abbrev half_run : Run Bytes
half_run = record {
  parser = record {
    state = header;
    line_state = finish;
    request = record sample_request { headers = [] };
    body_length = 0;
  };
  buf = codes "Ho";
  ok = some true;
}

parse_first_half : parse_request bytes_source 7 new_parser first_half ≡ some (stop half_run)
unfolding parse_request parse_loop round on_request_line on_header parse_request_line line_loop
    line_method line_url line_version find_space set_target add_parameters add_parameter add_query
    insert equal find_byte search_crlf found_before set_method is_valid method_named
parse_first_half = refl

parse_request_resumes_example :
    view_of (parse_request bytes_source 7 half_run.parser (half_run.buf ++ second_half))
    ≡ view_of (parse_request bytes_source 7 new_parser (first_half ++ second_half))
parse_request_resumes_example =
    parse_request_resumes 7 new_parser first_half second_half parse_first_half (λ e. cc)

-- An IOBuffer that has received a text.
abbrev pub buffer_with : Bytes → Buffer
buffer_with text = Buffer.append (Buffer.new Buffer.initial_size) text

new_size : length (Buffer.new Buffer.initial_size).buffer ≡ 1032
unfolding Buffer.new
new_size = refl

pub buffer_with-Appends :
    (text : Bytes)
    → length text < 2 ^ 32
    → Appends (Buffer.new Buffer.initial_size) text (buffer_with text)
buffer_with-Appends text h = append-Appends text (new-IsValid _) (omega (arith, new_size))

pub readable-buffer_with :
    (text : Bytes) → length text < 2 ^ 32 → Buffer.readable (buffer_with text) ≡ text
readable-buffer_with text h =
    (buffer_with-Appends text h).bytes ∙ ap (λ xs. xs ++ text) (readable-new Buffer.initial_size)

abbrev pub sample_connection : Connection
sample_connection = record new_connection { input = buffer_with sample_text }

pub sample_IsValid : IsValid (buffer_with sample_text)
sample_IsValid = (buffer_with-Appends sample_text (omega arith)).valid

parse_request-Alike_example :
    Alike
      (parse_request buffer_source 7 new_parser (buffer_with sample_text))
      (parse_request bytes_source 7 new_parser (Buffer.readable (buffer_with sample_text)))
parse_request-Alike_example = parse_request-Alike 7 new_parser sample_IsValid

parse_request_total_example :
    (x : Round Bytes) × (parse_request bytes_source 7 new_parser sample_text ≡ some x)
    × Ends 7 (start 7 new_parser sample_text) x
parse_request_total_example = parse_request_total 7 new_parser sample_text

-- A form of three bytes behind a header that says so.
abbrev form_fields : List (Bytes × Bytes)
form_fields = (codes "Content-Length", codes "3") ∷ []

form_AreFields : AreFields form_fields
unfolding find_byte
form_AreFields = more_fields (record { name = refl; line = refl }) no_fields

form_named :
    get_header (stored 7 new_request get sample_target http11 form_fields) (codes "Content-Length")
    ≡ codes "3"
unfolding set_target add_parameters add_parameter add_query insert equal find_byte trim_end
    skip_spaces is_space get_header lookup
form_named = refl

form_size : stoi_size (codes "3") ≡ some 3
unfolding stoi_size stoi_signed stoi_digits digits_value is_digit skip_spaces is_space
form_size = refl

parse_request_form_example :
    parse_request bytes_source 7 new_parser
      (sample_line ++ crlf (render_fields form_fields (codes "y=2" ++ next_bytes)))
    ≡ some (
        stop (record {
          parser = record {
            state = got_all;
            line_state = finish;
            request =
                add_parameters 4
                  (stored 7 new_request get sample_target http11 form_fields)
                  (codes "y=2");
            body_length = 3;
          };
          buf = codes "y=2" ++ next_bytes;
          ok = some true;
        }))
parse_request_form_example =
    parse_request_form 7 new_parser refl refl sample_IsRequestLine sample_IsLine form_AreFields
      (codes "y=2") next_bytes (rw form_named (λ e. cc)) (rw form_named form_size)

abbrev two_parameters : List (Bytes × Bytes)
two_parameters = (codes "a", codes "1") ∷ (codes "b", codes "2") ∷ []

two_AreParameters : AreParameters two_parameters
unfolding find_byte
two_AreParameters =
    more_parameters (record { name = refl; whole = refl })
      (more_parameters (record { name = refl; whole = refl }) no_parameters)

add_parameters-render_example :
    add_parameters 8 new_request (codes "a=1&b=2")
    ≡ record new_request { querys = (codes "a", codes "1") ∷ (codes "b", codes "2") ∷ [] }
unfolding insert equal
add_parameters-render_example =
    add_parameters-render two_parameters new_request 8 two_AreParameters (omega arith)
