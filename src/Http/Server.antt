-- ===== src/Http/Server.antt =====
-- http/httpserver.h and http/httpserver.cpp: class HttpServer, as it handles the messages of one
-- connection. The parser is what the connection keeps as its context.
pub mod Answers
pub mod Refusals
pub mod NotFound
pub mod Files
pub mod Setup
mod Tests
use sinetlib.Base.Int.{pos}
use sinetlib.Base.{
  ℕ, Bool, true, false, not, ◌&&◌, ◌||◌, Option, none, some, List, [], ◌∷◌, ◌++◌, if◌then◌else◌,
  length, Bytes, codes, equal, Dict,
}
use sinetlib.Http.Parser.Input.{buffer_source}
use sinetlib.Http.Parser.{
  Parser, new_parser, reset, is_got_all, Run, Round, again, stop, thrown, parse_request,
}
use sinetlib.Http.Request.{HttpRequest, Version, http10, http11, unknown, get_header}
use sinetlib.Http.Response.{
  HttpResponse, not_found, new_response, set_status_code, set_status_message, set_close_connection,
  set_content_type, add_header, append_header_to_buffer, append_body_to_buffer,
}
use sinetlib.Http.Router.{Route, match_routes}
use sinetlib.Log.Stream.{convert}
use sinetlib.Net.Buffer.{Buffer}
use sinetlib.Net.Connection.{Connection, Effect, WriteResult, send, send_buffer, shutdown, after}

-- Route::Handler. A handler may write into the map, which nobody reads behind it.
abbrev pub Handler : Type 0
Handler = HttpRequest → Dict → HttpResponse → HttpResponse

-- PageNotFoundHandler; `order` is the order of iteration over the headers.
unfoldable pub page_not_found : (Dict → List (Bytes × Bytes)) → Handler
page_not_found order request match_map response =
    let body = codes "404 page not found" in
    let r = set_status_code response not_found in
    let r = set_status_message r (codes "Not Found") in
    let r = set_close_connection r true in
    let r = set_content_type r (codes "text/html") in
    let r = add_header r (codes "Content-Length") (convert (pos (length body))) in
    append_body_to_buffer (append_header_to_buffer order r) body

-- OnConnection: the context of a new connection.
abbrev pub on_connection : Parser
on_connection = new_parser

abbrev pub is_http10 : Version → Bool
is_http10 http10 = true
is_http10 _ = false

-- Whether the connection is not kept after the request.
unfoldable pub wants_close : HttpRequest → Bool
wants_close request =
    let connection = get_header request (codes "Connection") in
    equal connection (codes "close")
    || (is_http10 request.version && not (equal connection (codes "keep-alive")))

-- What OnMessage leaves, or that `stoi` has thrown, or that the fuel of the parser ran out.
pub data Handled : Type 0 where
  handled : Connection → Parser → List Effect → Handled
  uncaught out_of_fuel : Handled

-- What ParseRequest returns: an uninitialised variable reads as `garbage`.
abbrev pub ok_or : Bool → Option Bool → Bool
ok_or garbage none = garbage
ok_or garbage (some ok) = ok

module _ (regex_match : Bytes → Bytes → Option (List Bytes)) (default_handler : Handler)
    (routes : List (Route Handler)) where
  unfoldable pub respond : HttpRequest → HttpResponse
  respond request =
      let response = new_response (wants_close request) in
      let (handler, match_map) = match_routes regex_match routes request [] in
      elim handler [
        | none ↦ default_handler request match_map response
        | some h ↦ h request match_map response
      ]

  -- OnRequest; `result` is what `write` answers.
  unfoldable pub on_request : Connection → HttpRequest → WriteResult → Connection × List Effect
  on_request c request result =
      let response = respond request in
      let (d, emptied, effects) = send_buffer c response.buffer result in
      (d, effects ++ (if response.close_connection then shutdown d else []))

  -- What OnMessage does with a request that is not valid.
  unfoldable pub refuse_message : Connection → WriteResult → Connection × List Effect
  refuse_message c result =
      let (d, effects) = send c (codes "HTTP/1.1 400 Bad Request\r\n\r\n") result in
      (d, effects ++ shutdown d)

  -- OnMessage behind ParseRequest, which has returned `good`; `refusal` and `result` are what
  -- `write` answers for the refusal and for the response.
  unfoldable pub finish_message : Connection → Parser → Bool → WriteResult → WriteResult → Handled
  finish_message c p good refusal result =
      let (d, effects) = (if good then (c, []) else refuse_message c refusal) in
      let (e, more) = on_request d p.request result in
      if is_got_all p then handled e (reset p) (effects ++ more) else handled d p effects

  -- OnMessage over the parser in the context.
  unfoldable pub on_message : Connection → Parser → ℕ → Bool → WriteResult → WriteResult → Handled
  on_message c p t garbage refusal result = elim (parse_request buffer_source t p c.input) [
    | none ↦ out_of_fuel
    | some x ↦ elim x [
      | again r ↦ out_of_fuel
      | thrown r ↦ uncaught
      | stop r ↦
          let d = record c { input = r.buf } in
          finish_message d r.parser (ok_or garbage r.ok) refusal result
    ]
  ]
