-- ===== src/Http/Parser.antt =====
-- http/httpparser.h and http/httpparser.cpp: class HttpParser, over any input that offers what the
-- parser calls of IOBuffer.
pub mod Stoi
pub mod Line
pub mod LineSound
pub mod Query
pub mod Loop
pub mod Grow
pub mod Resume
pub mod Fields
pub mod Whole
pub mod Input
pub mod Size
pub mod Prefix
pub mod Waiting
pub mod Pieces
use sinetlib.Base.{
  ℕ, zero, suc, ◌+◌, Bool, true, false, not, ◌&&◌, Option, none, some, List, [], ◌∷◌, ◌==◌, leb,
  if◌then◌else◌, length, take, drop, Bytes, codes, equal,
}
use sinetlib.Http.Request.{
  HttpRequest, new_request, http10, http11, set_method, set_version, set_path, set_receive_time,
  add_query, add_header, get_header,
}
use sinetlib.Net.Buffer.{find_byte}
use Stoi.{stoi_size}

pub data ParseState : Type 0 where
  request_line header body got_all : ParseState

pub data LineState : Type 0 where
  method url version finish : LineState

pub record Parser : Type 0 where
  pub state : ParseState
  pub line_state : LineState
  pub request : HttpRequest
  pub body_length : ℕ

-- The constructor.
abbrev pub new_parser : Parser
new_parser = record {
  state = request_line;
  line_state = method;
  request = new_request;
  body_length = 0;
}

-- Reset leaves body_length_ as it is.
unfoldable pub reset : Parser → Parser
reset p = record p { state = request_line; line_state = method; request = new_request }

unfoldable pub is_got_all : Parser → Bool
is_got_all p = elim p.state [ got_all ↦ true | _ ↦ false ]

-- One parameter: it is added if it has a '='.
unfoldable pub add_parameter : HttpRequest → Bytes → HttpRequest
unfolding find_byte
add_parameter r text =
    if find_byte b'=' text == length text then r else add_query r text (find_byte b'=' text)

-- The loop over the '&' of a range, and the part behind the last one.
unfoldable pub add_parameters : ℕ → HttpRequest → Bytes → HttpRequest
add_parameters zero r text = r
add_parameters (suc fuel) r text =
    let ampersand = find_byte b'&' text in
    let rest =
      add_parameters fuel (add_parameter r (take ampersand text)) (drop (ampersand + 1) text) in
    if ampersand == length text
    then (if length text == 0 then r else add_parameter r text)
    else rest

unfoldable pub set_target : HttpRequest → Bytes → HttpRequest
set_target r target =
    let question = find_byte b'?' target in
    if question == length target
    then set_path r target
    else add_parameters (suc (length target)) (set_path r (take question target))
        (drop (question + 1) target)

-- What a state of the request line does: `false` is returned, or the loop goes on with the position
-- of `space`.
pub data LineStep : Type 0 where
  refuse : Parser → LineStep
  go_on : Parser → ℕ → LineStep

-- `std::find(line + start, end, ' ')`.
unfoldable pub find_space : Bytes → ℕ → ℕ
find_space line start = start + find_byte b' ' (drop start line)

unfoldable pub line_method : Parser → Bytes → ℕ → LineStep
line_method p line space =
    let (r, known) = set_method p.request (take space line) in
    if space == length line
    then refuse p
    else if known
    then go_on (record p { request = r; line_state = url }) space
    else refuse (record p { request = r })

-- With `space` at the end of the line the code would go on one byte behind it; here nothing is left.
-- Only a parser that a refused line has left in this state, over a line without a space, gets there.
unfoldable pub line_url : Parser → Bytes → ℕ → LineStep
line_url p line space =
    let start = space + 1 in
    let next = find_space line start in
    if next == length line
    then refuse p
    else go_on
        (record p {
          request =
              set_target p.request (take (find_byte b' ' (drop start line)) (drop start line));
          line_state = version;
        })
        next

unfoldable pub line_version : Parser → Bytes → ℕ → LineStep
line_version p line space =
    let text = drop (space + 1) line in
    if length text == 8 && equal (take 7 text) (codes "HTTP/1.")
    then if equal (drop 7 text) (codes "1")
      then go_on (record p { request = set_version p.request http11; line_state = finish }) space
      else if equal (drop 7 text) (codes "0")
      then go_on (record p { request = set_version p.request http10; line_state = finish }) space
      else refuse p
    else refuse p

abbrev pub line_step : LineState → Parser → Bytes → ℕ → LineStep
line_step method p line space = line_method p line space
line_step url p line space = line_url p line space
line_step version p line space = line_version p line space
line_step finish p line space = go_on p space

abbrev pub is_finish : LineState → Bool
is_finish finish = true
is_finish _ = false

-- The `while` loop of ParseRequestLine. Each round moves to the next of four states.
unfoldable pub line_loop : ℕ → Parser → Bytes → ℕ → Bool × Parser
line_loop zero p line space = (false, p)
line_loop (suc fuel) p line space = elim (is_finish p.line_state) [
  | true ↦ (true, p)
  | false ↦ elim (line_step p.line_state p line space) [
    | refuse q ↦ (false, q)
    | go_on q next ↦ line_loop fuel q line next
  ]
]

unfoldable pub parse_request_line : Parser → Bytes → Bool × Parser
parse_request_line p line = line_loop 4 p line (find_space line 0)

-- What the parser calls of its buffer.
pub record Source (B : Type 0) : Type 0 where
  pub readable : B → Bytes
  pub readable_size : B → ℕ
  pub find_crlf : B → Option ℕ
  pub retrieve_until : B → ℕ → B

-- The variables of ParseRequest's loop. `ok` is not initialised there: `none`.
pub record Run (B : Type 0) : Type 0 where
  pub parser : Parser
  pub buf : B
  pub ok : Option Bool

-- After a round: `has_more` is still true, or it is false, or `stoi` has thrown.
pub data Round (B : Type 0) : Type 0 where
  again : Run B → Round B
  stop : Run B → Round B
  thrown : Run B → Round B

module _ {B : Type 0} (source : Source B) (receive_time : ℕ) where
  unfoldable pub on_request_line : Run B → Round B
  on_request_line r = elim (source.find_crlf r.buf) [
    | none ↦ stop r
    | some crlf ↦
        let (good, p) = parse_request_line r.parser (take crlf (source.readable r.buf)) in
        if good
        then again (record {
          parser = record p { request = set_receive_time p.request receive_time; state = header };
          buf = source.retrieve_until r.buf (crlf + 2);
          ok = some true;
        })
        else stop (record r { parser = p; ok = some false })
  ]

  -- A line with no ':' ends the headers.
  unfoldable pub end_headers : Run B → B → Round B
  end_headers r rest =
      let text = get_header r.parser.request (codes "Content-Length") in
      if length text == 0
      then stop (record r { parser = record r.parser { state = got_all }; buf = rest })
      else elim (stoi_size text) [
        | none ↦ thrown r
        | some n ↦
            again
              (record r { parser = record r.parser { body_length = n; state = body }; buf = rest })
      ]

  unfoldable pub on_header : Run B → Round B
  on_header r = elim (source.find_crlf r.buf) [
    | none ↦ stop r
    | some crlf ↦
        let line = take crlf (source.readable r.buf) in
        let colon = find_byte b':' line in
        let rest = source.retrieve_until r.buf (crlf + 2) in
        if colon == length line
        then end_headers r rest
        else again (record r {
          parser = record r.parser { request = add_header r.parser.request line colon };
          buf = rest;
        })
  ]

  unfoldable pub on_body : Run B → Round B
  on_body r =
      let n = r.parser.body_length in
      if leb n (source.readable_size r.buf)
      then stop (record r {
        parser = record r.parser {
          request = add_parameters (suc n) r.parser.request (take n (source.readable r.buf));
          state = got_all;
        };
      })
      else stop r

  unfoldable pub round : ParseState → Run B → Round B
  round request_line r = on_request_line r
  round header r = on_header r
  round body r = on_body r
  round got_all r = stop r

  -- The loop `while (has_more)`; `none` where the fuel runs out.
  unfoldable pub parse_loop : ℕ → Run B → Option (Round B)
  parse_loop zero r = none
  parse_loop (suc fuel) r = elim (round r.parser.state r) [
    | again next ↦ parse_loop fuel next
    | stop last ↦ some (stop last)
    | thrown last ↦ some (thrown last)
  ]

  -- Every round but the last two takes two bytes or more, so the bytes there are fuel enough.
  unfoldable pub parse_request : Parser → B → Option (Round B)
  parse_request p buf =
      parse_loop (source.readable_size buf + 2) (record { parser = p; buf = buf; ok = none })
