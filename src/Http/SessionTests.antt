-- ===== src/Http/SessionTests.antt =====
-- The theorems on a whole server, and on sessions of it, at concrete requests.
use sinetlib.Base.{
  ℕ, ◌≡◌, refl, arith, length, take, drop, true, false, none, some, List, [], ◌∷◌, ◌++◌, Bytes,
  codes,
}
use sinetlib.Http.FileTests.{two_bytes, in_order, tail_match}
use sinetlib.Http.Matcher.{
  type_prefix, new_matcher, scan, build, build_names, name_of, group_of, subject,
}
use sinetlib.Http.Parser.Fields.{crlf, render_fields}
use sinetlib.Http.Parser.Loop.{crlf_in}
use sinetlib.Http.Parser.Whole.{stored}
use sinetlib.Http.Parser.{new_parser}
use sinetlib.Http.Request.{HttpRequest, get, http11, new_request}
use sinetlib.Http.Response.{new_response, append_body_to_buffer}
use sinetlib.Http.Router
use sinetlib.Http.Router.First.{Accepts, accepts_all, accepts_next, reject_all}
use sinetlib.Http.Router.{
  Route, match_routes, match_all, add_regexp_matcher, set_prefix, set_handler, change_route,
}
use sinetlib.Http.Server.Files.{get_handler}
use sinetlib.Http.Server.Setup.{
  HttpServer, Target, file_handler, SetUp, new_route, change, sets_prefix, sets_files,
  new_http_server, set_up, set_up_all, argument, serve, serve-last_path,
}
use sinetlib.Http.Server.{Handler, respond, wants_close}
use sinetlib.Http.Session.Answered.{reports-answers}
use sinetlib.Http.Session.Served.{
  IsRequest, Comes, last_piece, piece, no_piece, Bring, no_reports, whole, in_pieces, nothing_new,
  IsIdle, arrived, answers, AllStay, Goes,
}
use sinetlib.Http.Session.{Report, opened, reports}
use sinetlib.Http.Tests.{
  sample_line, sample_target, sample_fields, sample_IsRequestLine, sample_IsLine, sample_AreFields,
  sample_no_length,
}
use sinetlib.Net.Buffer
use sinetlib.Net.Buffer.Contents.{readable-new}
use sinetlib.Net.Buffer.Valid.{new-IsValid, Fits}
use sinetlib.Net.Buffer.{initial_size, failed, received}
use sinetlib.Net.Connection.Stream.{Inv}
use sinetlib.Net.Connection.{new_connection, wrote, would_block}
use sinetlib.Net.EventBase.{no_events, enable_read_events, is_writing}

-- A handler that answers every request alike.
abbrev pong : Handler
pong q match_map response = append_body_to_buffer response (codes "HTTP/1.1 200 OK\r\n\r\n")

abbrev sample_whole : Bytes
sample_whole = sample_line ++ crlf (render_fields sample_fields [])

abbrev sample_kept : HttpRequest
sample_kept = stored 7 new_request get sample_target http11 sample_fields

sample_IsRequest : IsRequest 7 sample_kept sample_whole
sample_IsRequest = record {
  line = sample_line;
  m = get;
  target = sample_target;
  v = http11;
  fields = sample_fields;
  rendered = refl;
  kept = refl;
  is_request_line = sample_IsRequestLine;
  is_line = sample_IsLine;
  are_fields = sample_AreFields;
  no_length = sample_no_length;
}

-- A request comes, and the peer takes three bytes of the answer, or the rest later.
abbrev with_request : Report
with_request = record {
  revents = record no_events { epoll_in = true; epoll_out = true };
  time = 7;
  garbage = false;
  read_result = received sample_whole;
  refusal = would_block;
  reply = wrote 3;
  rest = would_block;
}

abbrev writable : Report
writable = record with_request {
  revents = record no_events { epoll_out = true };
  read_result = failed 11;
  rest = wrote 10;
}

head_has_none : crlf_in (take 12 sample_whole) ≡ none
unfolding Buffer.found_before Buffer.search_crlf
head_has_none = refl

-- The first twelve bytes of a request, and the others.
abbrev with_head : Report
with_head = record with_request {
  time = 8;
  garbage = true;
  read_result = received (take 12 sample_whole);
}

abbrev with_tail : Report
with_tail = record with_request { garbage = true; read_result = received (drop 12 sample_whole) }

abbrev some_reports : List Report
some_reports = with_request ∷ writable ∷ ((with_head ∷ writable ∷ with_tail ∷ []) ++ [])

tail_Comes : Comes 7 sample_whole (take 12 sample_whole) (writable ∷ with_tail ∷ [])
tail_Comes =
    no_piece (record { unbroken = refl; nothing = refl })
      (last_piece (drop 12 sample_whole)
        (record { unbroken = refl; readable = refl; came = refl; some_came = λ e. cc }) refl
        (λ n s. refl) refl)

some_Bring : Bring some_reports (sample_kept ∷ sample_kept ∷ [])
some_Bring =
    whole sample_whole sample_IsRequest
      (record { unbroken = refl; readable = refl; came = refl; some_came = λ e. cc })
      (nothing_new (record { unbroken = refl; nothing = refl })
        (in_pieces 7 sample_whole sample_IsRequest
          (piece (take 12 sample_whole) (drop 12 sample_whole)
            (record { unbroken = refl; readable = refl; came = refl; some_came = λ e. cc }) refl
            (λ n s. absurd (s head_has_none)) (λ e. cc) refl tail_Comes)
          no_reports))

new_Inv : Inv new_connection
unfolding new_connection
new_Inv = record {
  valid = new-IsValid initial_size;
  idle = λ h. readable-new initial_size;
  busy = λ h. unfold is_writing enable_read_events in cc;
}

new_IsIdle : IsIdle new_connection.input new_parser
unfolding new_connection
new_IsIdle = record {
  valid = new-IsValid initial_size;
  empty = readable-new initial_size;
  state = refl;
  line_state = refl;
  fresh = refl;
}

some_in : Fits new_connection.input (arrived some_reports)
unfolding new_connection Buffer.new
some_in = omega arith

some_out :
    Fits new_connection.output
      (length (answers tail_match pong [] (sample_kept ∷ sample_kept ∷ [])))
unfolding new_connection Buffer.new Buffer.readable respond match_routes new_response
    append_body_to_buffer Buffer.append Buffer.ensure_writable Buffer.writable_size Buffer.add_size
some_out = omega arith

some_Stay : AllStay tail_match pong [] (sample_kept ∷ sample_kept ∷ [])
unfolding respond match_routes new_response append_body_to_buffer wants_close sinetlib.Base.equal
    sinetlib.Http.Request.get_header sinetlib.Base.lookup sinetlib.Base.insert
    sinetlib.Http.Parser.set_target Buffer.find_byte sinetlib.Http.Parser.add_parameters
    sinetlib.Http.Parser.add_parameter sinetlib.Http.Request.add_query
some_Stay = (refl, (refl, tt))

reports-answers_example :
    Goes IsIdle new_connection
      (arrived some_reports)
      (answers tail_match pong [] (sample_kept ∷ sample_kept ∷ []))
      (reports tail_match pong [] 5 (opened new_connection new_parser) some_reports)
reports-answers_example =
    reports-answers tail_match pong [] 5 some_Bring new_Inv new_IsIdle some_in some_out some_Stay

abbrev some_server : HttpServer ℕ
some_server = new_http_server in_order 0 1

-- `NewRoute()->SetPrefix(p)->SetHandler(GetFileHandler(dir))`, for the route i.
abbrev file_route : ℕ → Bytes → Bytes → List SetUp
file_route i p dir = new_route ∷ change i (sets_prefix p) ∷ change i (sets_files dir) ∷ []

abbrev two_file_routes : List SetUp
two_file_routes =
    file_route 0 (codes "/www/") (codes "www/") ++ file_route 1 (codes "/doc/") (codes "doc/")

abbrev served_route : Bytes → Route Target
served_route p = record {
  handler = some file_handler;
  matchers = new_matcher (p ++ codes "{file_path}") type_prefix [] ∷ [];
}

abbrev set_server : HttpServer ℕ
set_server = record some_server {
  routes = served_route (codes "/www/") ∷ served_route (codes "/doc/") ∷ [];
  prefix_path = codes "doc/";
}

two_are_set : set_up_all some_server two_file_routes ≡ some set_server
unfolding set_up_all set_up argument change_route add_regexp_matcher set_prefix set_handler
    Router.new_route new_matcher scan build build_names name_of group_of new_http_server
two_are_set = refl

www_Accepts : Accepts tail_match sample_kept (served_route (codes "/www/")).matchers
unfolding new_matcher scan build build_names name_of group_of subject
www_Accepts = accepts_next _ refl accepts_all

-- The route that is to serve www/ serves doc/.
serve-last_path_example :
    serve two_bytes in_order tail_match set_server sample_kept
    ≡ get_handler two_bytes in_order
        (codes "doc/")
        sample_kept
        (match_all tail_match (served_route (codes "/www/")).matchers sample_kept []).1
        (new_response (wants_close sample_kept))
serve-last_path_example =
    serve-last_path two_bytes in_order tail_match some_server set_server two_file_routes two_are_set
      sample_kept [] (served_route (codes "/doc/") ∷ []) (served_route (codes "/www/")) refl
      reject_all www_Accepts refl
