-- ===== src/Http/Server/Tests.antt =====
-- The theorems on the server, the router and the response at concrete requests.
use sinetlib.Base.{
  ◌≡◌, ◌∙◌, arith, refl, ap, length, take, false, Option, none, some, List, [], ◌∷◌, ◌++◌, Bytes,
  codes, Dict, equal, if◌then◌else◌,
}
use sinetlib.Http.Matcher.{type_method, type_path, new_matcher, scan, build, subject}
use sinetlib.Http.Parser.Whole.{stored}
use sinetlib.Http.Parser.Loop.{crlf_in}
use sinetlib.Http.Parser.{new_parser, parse_request_line, reset, line_loop, line_method, find_space}
use sinetlib.Http.Request.{get, new_request, method_str, set_method, method_named, is_valid, http11}
use sinetlib.Http.Response.{header_texts}
use sinetlib.Http.Router.First.{
  Accepts, accepts_all, accepts_next, Rejects, rejects_here, reject_all, reject_next,
  match_routes-first,
}
use sinetlib.Http.Router.{Route, match_all, match_routes}
use sinetlib.Http.Server.Refusals.{on_message_refused}
use sinetlib.Http.Server.Answers.{on_message_whole}
use sinetlib.Http.Server.NotFound.{not_found_text, on_request-not_found}
use sinetlib.Http.Server.{Handler, handled, on_message, on_request, page_not_found}
use sinetlib.Http.Tests.{
  sample_target, sample_fields, sample_request, sample_text, sample_connection, next_bytes,
  buffer_with, sample_IsRequestLine, sample_IsLine, sample_AreFields, sample_no_length,
  sample_IsValid, readable-buffer_with, buffer_with-Appends,
}
use sinetlib.Net.Buffer.Contents.{readable-new}
use sinetlib.Net.Buffer.Valid.{IsValid, Fits, new-IsValid}
use sinetlib.Net.Buffer
use sinetlib.Net.Buffer.{Buffer, initial_size, search_crlf, found_before, find_byte}
use sinetlib.Net.Connection.Stream.{Inv, stream}
use sinetlib.Net.Connection.{Connection, new_connection, wrote, would_block, send, shutdown}
use sinetlib.Net.EventBase.{enable_read_events, is_writing}

-- Expressions without special characters, which match themselves.
abbrev plain_match : Bytes → Bytes → Option (List Bytes)
plain_match pattern text = if equal pattern text then some (text ∷ []) else none

abbrev same_order : Dict → List (Bytes × Bytes)
same_order d = d

abbrev empty_handler : Handler
empty_handler q match_map response = response

abbrev post_route : Route Handler
post_route = record { handler = none; matchers = new_matcher (codes "POST") type_method [] ∷ [] }

abbrev get_route : Route Handler
get_route = record {
  handler = some empty_handler;
  matchers = new_matcher (codes "GET") type_method [] ∷ new_matcher (codes "/a") type_path [] ∷ [];
}

post_Rejects : Rejects plain_match sample_request post_route.matchers
unfolding new_matcher scan build subject method_str equal
post_Rejects = rejects_here refl

get_Accepts : Accepts plain_match sample_request get_route.matchers
unfolding new_matcher scan build subject method_str equal
get_Accepts = accepts_next (codes "GET" ∷ []) refl (accepts_next (codes "/a" ∷ []) refl accepts_all)

match_routes-first_example :
    match_routes plain_match (post_route ∷ get_route ∷ post_route ∷ []) sample_request []
    ≡ (get_route.handler, (match_all plain_match get_route.matchers sample_request []).1)
match_routes-first_example =
    match_routes-first plain_match sample_request (post_route ∷ []) (post_route ∷ []) get_route
      (reject_next post_Rejects reject_all) get_Accepts

on_message_whole_example :
    (b : Buffer) × IsValid b
    × (Buffer.readable b ≡ next_bytes)
    × (b.buffer ≡ sample_connection.input.buffer)
    × (on_message plain_match
          (page_not_found same_order)
          (get_route ∷ [])
          sample_connection
          new_parser
          7
          false
          would_block
          would_block
        ≡ (let (d, effects) =
              on_request plain_match
                (page_not_found same_order)
                (get_route ∷ [])
                (record sample_connection { input = b })
                (stored 7 new_request get sample_target http11 sample_fields)
                would_block in
            handled d (reset new_parser) effects))
on_message_whole_example =
    on_message_whole plain_match (page_not_found same_order) (get_route ∷ []) sample_connection
      new_parser 7 false would_block would_block next_bytes sample_IsValid
      (readable-buffer_with sample_text (omega arith)) refl refl sample_IsRequestLine sample_IsLine
      sample_AreFields sample_no_length

-- A line that is no request line.
abbrev bad_text : Bytes
bad_text = codes "HELLO\r\n"

abbrev bad_connection : Connection
bad_connection = record new_connection { input = buffer_with bad_text }

bad_readable : Buffer.readable (buffer_with bad_text) ≡ bad_text
bad_readable = readable-buffer_with bad_text (omega arith)

bad_line : (parse_request_line new_parser (take 5 bad_text)).0 ≡ false
unfolding parse_request_line line_loop line_method find_space find_byte set_method method_named
    equal is_valid
bad_line = refl

bad_crlf : crlf_in bad_text ≡ some 5
unfolding search_crlf found_before
bad_crlf = refl

on_message_refused_example :
    (b : Buffer) × IsValid b
    × (Buffer.readable b ≡ Buffer.readable bad_connection.input)
    × (on_message plain_match empty_handler [] bad_connection new_parser 7 false would_block
          would_block
        ≡ (let (d, effects) =
              send
                (record bad_connection { input = b })
                (codes "HTTP/1.1 400 Bad Request\r\n\r\n")
                would_block in
            handled d
              (parse_request_line new_parser (take 5 (Buffer.readable bad_connection.input))).1
              (effects ++ shutdown d)))
on_message_refused_example =
    on_message_refused plain_match empty_handler [] bad_connection new_parser 7 false would_block
      would_block 5 (buffer_with-Appends bad_text (omega arith)).valid refl
      (ap crlf_in bad_readable ∙ bad_crlf)
      (ap (λ xs. (parse_request_line new_parser (take 5 xs)).0) bad_readable ∙ bad_line)

new_Inv : Inv new_connection
unfolding new_connection
new_Inv = record {
  valid = new-IsValid initial_size;
  idle = λ h. readable-new initial_size;
  busy = λ h. unfold is_writing enable_read_events in cc;
}

text_Fits : Fits (Buffer.new initial_size) (length (not_found_text same_order))
unfolding Buffer.new header_texts
text_Fits = omega arith

on_request-not_found_example :
    let (d, effects) =
      on_request plain_match
        (page_not_found same_order)
        (post_route ∷ [])
        new_connection
        sample_request
        (wrote 10) in
    Inv d
    × (stream d ≡ stream new_connection ++ not_found_text same_order)
    × (effects ≡ (send new_connection (not_found_text same_order) (wrote 10)).1 ++ shutdown d)
on_request-not_found_example =
    on_request-not_found plain_match same_order (post_route ∷ []) new_connection sample_request
      (wrote 10) (reject_next post_Rejects reject_all) new_Inv text_Fits
      (unfold new_connection in text_Fits)
