-- ===== src/Http/Server/Files.antt =====
-- http/httpserver.cpp and http/filehandler.cpp: a request that a route hands to a FileHandler.
use sinetlib.Base.{
  ◌+◌, ◌≡◌, refl, sym, ap, ◌∙◌, subst, Option, none, some, List, [], ◌∷◌, ◌++◌, length,
  length-append, Bytes, Dict, arith,
}
use sinetlib.Http.File.{File, FileSystem, new_file}
use sinetlib.Http.FileHandler.{file_path, handler}
use sinetlib.Http.FileHandler.Length.{handler-Answers}
use sinetlib.Http.FileHandler.Served.{IsServed, body_of, heading_of}
use sinetlib.Http.Request.{HttpRequest}
use sinetlib.Http.Response.{HttpResponse, new_response, header_pieces}
use sinetlib.Http.Response.Written.{joined}
use sinetlib.Http.Router.First.{AllReject, Accepts, match_routes-first}
use sinetlib.Http.Router.{Route, match_all}
use sinetlib.Http.Server.{Handler, respond, on_request, wants_close}
use sinetlib.Net.Buffer
use sinetlib.Net.Buffer.Contents.{readable-new}
use sinetlib.Net.Buffer.Valid.{IsValid, Fits, new-IsValid}
use sinetlib.Net.Buffer.{Buffer, initial_size}
use sinetlib.Net.Connection.Stream.{Inv, send-stream, stream}
use sinetlib.Net.Connection.{Connection, WriteResult, send_buffer}

-- GetHandler; what Handler does behind undefined behaviour is left open: the response as it was.
abbrev pub get_handler : FileSystem → (Dict → List (Bytes × Bytes)) → Bytes → Handler
get_handler fs order prefix_path request match_map response =
    elim (handler fs order prefix_path request match_map response) [ none ↦ response | some s ↦ s ]

-- The text of the answer for a file: its header, on a response as OnRequest makes it, and its body.
abbrev pub file_text : FileSystem → (Dict → List (Bytes × Bytes)) → HttpRequest → File → Bytes
file_text fs order q file =
    let h = heading_of fs file (new_response (wants_close q)) in
    joined (header_pieces h (order h.headers)) ++ body_of fs file

module _ (regex_match : Bytes → Bytes → Option (List Bytes)) (default_handler : Handler)
    (fs : FileSystem) (order : Dict → List (Bytes × Bytes)) (prefix_path : Bytes) (q : HttpRequest)
    (before after : List (Route Handler)) (r : Route Handler)
    (rejected : AllReject regex_match q before) (accepted : Accepts regex_match q r.matchers)
    (handled : r.handler ≡ some (get_handler fs order prefix_path)) where
  -- What the matchers of the route put into the map.
  abbrev pub found_in : Dict
  found_in = (match_all regex_match r.matchers q []).1

  respond-route :
      (s : HttpResponse)
      → handler fs order prefix_path q found_in (new_response (wants_close q)) ≡ some s
      → respond regex_match default_handler (before ++ r ∷ after) q ≡ s
  unfolding respond
  respond-route s e =
      let found = match_routes-first regex_match q before after r rejected accepted in
      rw (found, respond, handled, found) (rw (e, get_handler) refl)

  on_request-stream :
      (c : Connection) (result : WriteResult) (s : HttpResponse) (text : Bytes)
      → respond regex_match default_handler (before ++ r ∷ after) q ≡ s
      → Buffer.readable s.buffer ≡ text
      → Inv c
      → Fits c.output (length text)
      → let (d, effects) =
          on_request regex_match default_handler (before ++ r ∷ after) c q result in
        Inv d × (stream d ≡ stream c ++ text)
  unfolding on_request send_buffer
  on_request-stream c result s text e bytes inv f = rw (e, bytes) (send-stream c text result inv f)

  -- Routes before it reject the request and a route accepts it whose handler is a FileHandler's; its
  -- file system serves only files that it can read, and the path from prefix and match is not empty.
  -- On a connection in order, with room below 2^64 bytes, OnRequest then keeps the connection in
  -- order, and the bytes for the peer grow by exactly the answer for the file: the header, with the
  -- length of the body, and the body, be it a file's text, a listing or the 404 text.
  pub on_request-file :
      (c : Connection) (result : WriteResult) (file : File)
      → new_file fs (prefix_path ++ file_path found_in) ≡ some file
      → IsServed fs file
      → Inv c
      → Fits (Buffer.new initial_size) (length (file_text fs order q file))
      → Fits c.output (length (file_text fs order q file))
      → let (d, effects) =
          on_request regex_match default_handler (before ++ r ∷ after) c q result in
        Inv d × (stream d ≡ stream c ++ file_text fs order q file)
  on_request-file c result file e served inv f g =
      let (s, answered, a) =
        handler-Answers fs order prefix_path q found_in (new_response (wants_close q)) file e served
          fresh_valid enough in
      on_request-stream c result s (file_text fs order q file) (respond-route s answered)
        (a.bytes ∙ ap (λ xs. (xs ++ pieces) ++ body_of fs file) fresh_empty) inv g
    where
      pieces : Bytes
      pieces =
          let h = heading_of fs file (new_response (wants_close q)) in
          joined (header_pieces h (order h.headers))

      fresh_buffer : (new_response (wants_close q)).buffer ≡ Buffer.new initial_size
      fresh_buffer = unfold new_response in refl

      fresh_valid : IsValid (new_response (wants_close q)).buffer
      fresh_valid = subst (λ b. IsValid b) (sym fresh_buffer) (new-IsValid initial_size)

      fresh_empty : Buffer.readable (new_response (wants_close q)).buffer ≡ []
      fresh_empty = ap Buffer.readable fresh_buffer ∙ readable-new initial_size

      enough : Fits (new_response (wants_close q)).buffer (length pieces + length (body_of fs file))
      enough =
          subst (λ b. Fits b (length pieces + length (body_of fs file))) (sym fresh_buffer)
            (omega (arith, f, length-append pieces (body_of fs file)))
