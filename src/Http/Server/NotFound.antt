-- ===== src/Http/Server/NotFound.antt =====
-- http/httpserver.cpp, HttpServer::OnRequest and PageNotFoundHandler: the answer to a request that no
-- route takes, down to the bytes on the connection.
use sinetlib.Base.{
  ◌+◌, ◌≡◌, refl, sym, ap, ◌∙◌, Bool, true, Option, List, [], ◌∷◌, ◌++◌, length, append_assoc,
  Bytes, codes, Dict, insert, equal, length-append,
}
use sinetlib.Base.Int.{pos}
use sinetlib.Http.Request.{HttpRequest}
use sinetlib.Http.Response.{
  HttpResponse, not_found, set_status_code, set_status_message, set_close_connection,
  set_content_type, add_header, new_response, header_texts, header_pieces, append_header_to_buffer,
  append_body_to_buffer,
}
use sinetlib.Http.Response.Written.{joined, response_written}
use sinetlib.Http.Router.First.{AllReject, match_routes-none}
use sinetlib.Http.Router.{Route}
use sinetlib.Http.Server.{Handler, page_not_found, respond, on_request, wants_close}
use sinetlib.Log.Stream.{convert, convert_loop, digit_at}
use sinetlib.Net.Buffer.Contents.{readable-new}
use sinetlib.Net.Buffer.Valid.{IsValid, Fits, new-IsValid}
use sinetlib.Net.Buffer
use sinetlib.Net.Buffer.{Buffer, initial_size, prepend_size}
use sinetlib.Net.Connection.Stream.{Inv, send-stream, stream}
use sinetlib.Net.Connection.{Connection, WriteResult, send, send_buffer, shutdown}

-- The fields of the answer, and its text with the fields in the order of iteration.
abbrev pub not_found_fields : Dict
not_found_fields =
    (codes "Content-Type", codes "text/html; charset=utf-8")
    ∷ (codes "Content-Length", codes "18")
    ∷ []

abbrev pub not_found_text : (Dict → List (Bytes × Bytes)) → Bytes
not_found_text order =
    codes "HTTP/1.1 404 Not Found\r\nConnection: close\r\n"
    ++ (joined (header_texts (order not_found_fields)) ++ codes "\r\n404 page not found")

joined-append : (xs ys : List Bytes) → joined (xs ++ ys) ≡ joined xs ++ joined ys
joined-append [] ys = refl
joined-append (x ∷ xs) ys =
    ap (◌++◌ x) (joined-append xs ys) ∙ sym (append_assoc x (joined xs) (joined ys))

-- The response before its text is written.
abbrev headed : Bool → HttpResponse
headed close = record (new_response close) {
  close_connection = true;
  status_code = not_found;
  status_message = codes "Not Found";
  headers = not_found_fields;
}

convert-404 : convert (pos 404) ≡ codes "404"
unfolding convert convert_loop digit_at
convert-404 = refl

convert-18 : convert (pos 18) ≡ codes "18"
unfolding convert convert_loop digit_at
convert-18 = refl

page_not_found-headed :
    (order : Dict → List (Bytes × Bytes)) (q : HttpRequest) (match_map : Dict) (close : Bool)
    → page_not_found order q match_map (new_response close)
      ≡ append_body_to_buffer
          (append_header_to_buffer order (headed close))
          (codes "404 page not found")
unfolding page_not_found set_status_code set_status_message set_close_connection set_content_type
    add_header insert equal new_response
page_not_found-headed order q match_map close = rw (convert-18) refl

pieces_joined :
    (order : Dict → List (Bytes × Bytes)) (close : Bool)
    → joined (header_pieces (headed close) (order not_found_fields)) ++ codes "404 page not found"
      ≡ not_found_text order
unfolding header_pieces new_response
pieces_joined order close =
    rw (convert-404, joined-append, append_assoc (joined (header_texts (order not_found_fields))))
      refl

-- PageNotFoundHandler on a new response: the whole text is in the buffer, and the connection is to be
-- closed whatever the request asked for.
pub page_not_found_written :
    (order : Dict → List (Bytes × Bytes)) (q : HttpRequest) (match_map : Dict) (close : Bool)
    → Fits (Buffer.new initial_size) (length (not_found_text order))
    → let s = page_not_found order q match_map (new_response close) in
      IsValid s.buffer
      × (Buffer.readable s.buffer ≡ not_found_text order)
      × (s.close_connection ≡ true)
unfolding new_response append_body_to_buffer append_header_to_buffer
page_not_found_written order q match_map close f =
    rw (page_not_found-headed order q match_map close) (
      let (v, e) =
        response_written order (headed close) (codes "404 page not found")
          (new-IsValid initial_size) enough in
      (v, e ∙ rw (readable-new initial_size) (pieces_joined order close), refl))
  where
    enough : Fits (Buffer.new initial_size) (
        length (joined (header_pieces (headed close) (order not_found_fields)))
        + length (codes "404 page not found"))
    enough =
        rw
          (
            ← length-append (joined (header_pieces (headed close) (order not_found_fields)))
                (codes "404 page not found"),
            pieces_joined order close,
          )
          f

module _ (regex_match : Bytes → Bytes → Option (List Bytes)) (order : Dict → List (Bytes × Bytes))
    (routes : List (Route Handler)) where
  respond-not_found :
      (q : HttpRequest)
      → AllReject regex_match q routes
      → respond regex_match (page_not_found order) routes q
        ≡ page_not_found order q [] (new_response (wants_close q))
  unfolding respond
  respond-not_found q rejected =
      let none_found = match_routes-none regex_match q routes rejected in
      rw (none_found, respond, none_found) refl

  on_request-sends :
      (c : Connection) (q : HttpRequest) (result : WriteResult) (r : HttpResponse) (text : Bytes)
      → respond regex_match (page_not_found order) routes q ≡ r
      → Buffer.readable r.buffer ≡ text
      → r.close_connection ≡ true
      → on_request regex_match (page_not_found order) routes c q result
        ≡ (let (d, effects) = send c text result in (d, effects ++ shutdown d))
  unfolding on_request send_buffer
  on_request-sends c q result r text e bytes closes = rw (e, bytes, closes) refl

  -- A request that every route rejects, on a connection in order, with room below 2^64 bytes for
  -- the answer: the bytes for the peer grow by the text of the answer 404, the connection stays in
  -- order, and Shutdown is called behind the sending.
  pub on_request-not_found :
      (c : Connection) (q : HttpRequest) (result : WriteResult)
      → AllReject regex_match q routes
      → Inv c
      → Fits (Buffer.new initial_size) (length (not_found_text order))
      → Fits c.output (length (not_found_text order))
      → let (d, effects) = on_request regex_match (page_not_found order) routes c q result in
        Inv d
        × (stream d ≡ stream c ++ not_found_text order)
        × (effects ≡ (send c (not_found_text order) result).1 ++ shutdown d)
  on_request-not_found c q result rejected inv f g =
      let (v, bytes, closes) = page_not_found_written order q [] (wants_close q) f in
      let (kept, behind) = send-stream c (not_found_text order) result inv g in
      rw
        (on_request-sends c q result _ (not_found_text order) (respond-not_found q rejected) bytes
          closes)
        (kept, behind, refl)
