-- ===== src/Http/Session/Served.antt =====
-- net/connection.cpp and http/httpserver.cpp: requests as reports bring them, whole or in pieces, and
-- a session that has answered them.
use sinetlib.Base.{
  ℕ, ◌+◌, ◌≤◌, ◌≡◌, ◌≢◌, refl, sym, ap, ◌∙◌, true, false, ◌||◌, Bool, Option, List, [], ◌∷◌, ◌++◌,
  append-nil, append_assoc, length, length-append, Bytes, codes, arith, none,
}
use sinetlib.Http.Parser.Fields.{AreFields, IsLine, crlf, render_fields}
use sinetlib.Http.Parser.Line.{IsRequestLine}
use sinetlib.Http.Parser.Loop.{crlf_in}
use sinetlib.Http.Parser.Whole.{stored}
use sinetlib.Http.Parser.{Parser, request_line, method}
use sinetlib.Http.Request.{Method, Version, HttpRequest, new_request, get_header}
use sinetlib.Http.Router.{Route}
use sinetlib.Http.Server.{Handler, respond}
use sinetlib.Http.Session.{Report, Session, opened}
use sinetlib.Net.Buffer
use sinetlib.Net.Buffer.Reading.{delivered}
use sinetlib.Net.Buffer.Valid.{IsValid}
use sinetlib.Net.Buffer.{Buffer, received}
use sinetlib.Net.Connection.Stream.{Inv, stream}
use sinetlib.Net.Connection.{Connection}
use sinetlib.Net.EventBase.{Events, is_broken}

-- The text of a whole request without a body, and what the parser makes of it at time t.
pub record IsRequest (t : ℕ) (q : HttpRequest) (text : Bytes) : Type 0 where
  pub line : Bytes
  pub m : Method
  pub target : Bytes
  pub v : Version
  pub fields : List (Bytes × Bytes)
  pub rendered : text ≡ line ++ crlf (render_fields fields [])
  pub kept : q ≡ stored t new_request m target v fields
  pub is_request_line : IsRequestLine line m target v
  pub is_line : IsLine line
  pub are_fields : AreFields fields
  pub no_length : get_header (stored t new_request m target v fields) (codes "Content-Length") ≡ []

abbrev pub can_read : Events → Bool
can_read e = e.epoll_in || e.epoll_pri || e.epoll_hup

-- A report that brings these bytes.
pub record Brings (k : Report) (xs : Bytes) : Type 0 where
  pub unbroken : is_broken k.revents ≡ false
  pub readable : can_read k.revents ≡ true
  pub came : k.read_result ≡ received xs
  pub some_came : xs ≢ []

-- A report that brings nothing; like any other it may say that the peer can be written to.
pub record BringsNothing (k : Report) : Type 0 where
  pub unbroken : is_broken k.revents ≡ false
  pub nothing : can_read k.revents ≡ false

-- A piece with the end of the request line is read at time t.
abbrev pub Clocked : ℕ → ℕ → Bytes → Bytes → Type 0
Clocked t u before xs = crlf_in before ≡ none → crlf_in (before ++ xs) ≢ none → u ≡ t

-- The rest of a text, of which `before` has come, in pieces, the last of which ends the reports. What
-- is in the uninitialised `ok` is read as true.
pub data Comes (t : ℕ) (text : Bytes) : Bytes → List Report → Type 0 where
  last_piece :
      {before : Bytes} {k : Report} (xs : Bytes)
      → Brings k xs
      → k.garbage ≡ true
      → Clocked t k.time before xs
      → text ≡ before ++ xs
      → Comes t text before (k ∷ [])
  piece :
      {before : Bytes} {k : Report} {ks : List Report} (xs more : Bytes)
      → Brings k xs
      → k.garbage ≡ true
      → Clocked t k.time before xs
      → more ≢ []
      → text ≡ (before ++ xs) ++ more
      → Comes t text (before ++ xs) ks
      → Comes t text before (k ∷ ks)
  no_piece :
      {before : Bytes} {k : Report} {ks : List Report}
      → BringsNothing k
      → Comes t text before ks
      → Comes t text before (k ∷ ks)

-- Reports with whole requests, requests in pieces, and nothing, and the requests.
pub data Bring : List Report → List HttpRequest → Type 0 where
  no_reports : Bring [] []
  whole :
      {k : Report} {ks : List Report} {q : HttpRequest} {qs : List HttpRequest} (text : Bytes)
      → IsRequest k.time q text
      → Brings k text
      → Bring ks qs
      → Bring (k ∷ ks) (q ∷ qs)
  in_pieces :
      {ks ls : List Report} {q : HttpRequest} {qs : List HttpRequest} (t : ℕ) (text : Bytes)
      → IsRequest t q text
      → Comes t text [] ks
      → Bring ls qs
      → Bring (ks ++ ls) (q ∷ qs)
  nothing_new :
      {k : Report} {ks : List Report} {qs : List HttpRequest}
      → BringsNothing k
      → Bring ks qs
      → Bring (k ∷ ks) qs

-- An input buffer and the parser between two requests.
pub record IsIdle (b : Buffer) (p : Parser) : Type 0 where
  pub valid : IsValid b
  pub empty : Buffer.readable b ≡ []
  pub state : p.state ≡ request_line
  pub line_state : p.line_state ≡ method
  pub fresh : p.request ≡ new_request

abbrev pub arrived : List Report → ℕ
arrived [] = 0
arrived (k ∷ ks) = delivered k.read_result + arrived ks

pub arrived-append : (ks ls : List Report) → arrived (ks ++ ls) ≡ arrived ks + arrived ls
arrived-append [] ls = omega arith
arrived-append (k ∷ ks) ls = omega (arith, arrived-append ks ls)

-- The session goes on with such an input and parser, the text is behind what the peer was to get
-- before, and n bytes came at most.
pub record Goes (P : Buffer → Parser → Type 0) (c : Connection) (n : ℕ) (text : Bytes) (s : Session)
    : Type 0 where
  pub d : Connection
  pub p : Parser
  pub open_still : s ≡ opened d p
  pub inv : Inv d
  pub input : P d.input p
  pub bytes : stream d ≡ stream c ++ text
  pub input_size : length d.input.buffer ≤ length c.input.buffer + n
  pub output_size : length d.output.buffer ≤ length c.output.buffer + length text

module _ {P : Buffer → Parser → Type 0} {c : Connection} where
  pub Goes-nothing : {p : Parser} → Inv c → P c.input p → Goes P c 0 [] (opened c p)
  Goes-nothing {p} inv input = record {
    d = c;
    p = p;
    open_still = refl;
    inv = inv;
    input = input;
    bytes = sym (append-nil (stream c));
    input_size = omega arith;
    output_size = omega arith;
  }

  pub Goes-more :
      {n : ℕ} {text : Bytes} {s : Session} (m : ℕ) → n ≤ m → Goes P c n text s → Goes P c m text s
  Goes-more m h a = record {
    d = a.d;
    p = a.p;
    open_still = a.open_still;
    inv = a.inv;
    input = a.input;
    bytes = a.bytes;
    input_size = omega (arith, a.input_size);
    output_size = a.output_size;
  }

pub Goes-trans :
    {P Q : Buffer → Parser → Type 0} {c : Connection} {n m : ℕ} {xs ys : Bytes} {s u : Session}
    (a : Goes P c n xs s)
    → Goes Q a.d m ys u
    → Goes Q c (n + m) (xs ++ ys) u
Goes-trans {c} {n} {m} {xs} {ys} a b = record {
  d = b.d;
  p = b.p;
  open_still = b.open_still;
  inv = b.inv;
  input = b.input;
  bytes = b.bytes ∙ ap (λ zs. zs ++ ys) a.bytes ∙ append_assoc (stream c) xs ys;
  input_size = omega (arith, a.input_size, b.input_size);
  output_size = omega (arith, length-append xs ys, a.output_size, b.output_size);
}

module _ (regex_match : Bytes → Bytes → Option (List Bytes)) (default_handler : Handler)
    (routes : List (Route Handler)) where
  abbrev pub answer : HttpRequest → Bytes
  answer q = Buffer.readable (respond regex_match default_handler routes q).buffer

  -- The response leaves the connection open.
  abbrev pub Stays : HttpRequest → Type 0
  Stays q = (respond regex_match default_handler routes q).close_connection ≡ false

  abbrev pub AllStay : List HttpRequest → Type 0
  AllStay [] = Unit {0}
  AllStay (q ∷ qs) = Stays q × AllStay qs

  -- The responses to requests, in order.
  abbrev pub answers : List HttpRequest → Bytes
  answers [] = []
  answers (q ∷ qs) = answer q ++ answers qs
