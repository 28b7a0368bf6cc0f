-- ===== src/Http/Request.antt =====
-- http/httprequest.h: class HttpRequest. A pair of pointers is the range of bytes between them, a
-- pointer into a range its distance from the start. A Timestamp is its count of nanoseconds.
use sinetlib.Base.{
  ℕ, ◌+◌, Bool, true, false, ◌&&◌, ◌||◌, Option, none, some, [], ◌∷◌, reverse, leb, ◌==◌,
  if◌then◌else◌, take, drop, Bytes, codes, equal, Dict, lookup, insert,
}

pub data Method : Type 0 where
  invalid get post head put delete : Method

pub data Version : Type 0 where
  unknown http10 http11 : Version

pub record HttpRequest : Type 0 where
  pub method : Method
  pub version : Version
  pub path : Bytes
  pub querys : Dict
  pub headers : Dict
  pub receive_time : ℕ

-- The constructor.
abbrev pub new_request : HttpRequest
new_request = record {
  method = invalid;
  version = unknown;
  path = [];
  querys = [];
  headers = [];
  receive_time = 0;
}

unfoldable pub method_named : Bytes → Method
method_named m =
    if equal m (codes "GET")
    then get
    else if equal m (codes "POST")
    then post
    else if equal m (codes "HEAD")
    then head
    else if equal m (codes "PUT")
    then put
    else if equal m (codes "DELETE")
    then delete
    else invalid

unfoldable pub is_valid : Method → Bool
is_valid invalid = false
is_valid _ = true

unfoldable pub set_method : HttpRequest → Bytes → HttpRequest × Bool
set_method r m = (record r { method = method_named m }, is_valid (method_named m))

unfoldable pub method_str : Method → Bytes
method_str get = codes "GET"
method_str post = codes "POST"
method_str head = codes "HEAD"
method_str put = codes "PUT"
method_str delete = codes "DELETE"
method_str invalid = codes "UNKNOWN"

abbrev pub set_version : HttpRequest → Version → HttpRequest
set_version r v = record r { version = v }

abbrev pub set_path : HttpRequest → Bytes → HttpRequest
set_path r text = record r { path = text }

abbrev pub set_receive_time : HttpRequest → ℕ → HttpRequest
set_receive_time r t = record r { receive_time = t }

-- `equal` is the position of the '=' in the text.
unfoldable pub add_query : HttpRequest → Bytes → ℕ → HttpRequest
add_query r text equal = record r {
  querys = insert (take equal text) (drop (equal + 1) text) r.querys;
}

-- The value found, or the empty string.
abbrev pub or_empty : Option Bytes → Bytes
or_empty none = []
or_empty (some v) = v

unfoldable pub get_query : HttpRequest → Bytes → Bytes
get_query r field = or_empty (lookup field r.querys)

-- `isspace` in the C locale.
unfoldable pub is_space : ℕ → Bool
is_space c = c == 32 || (leb 9 c && leb c 13)

unfoldable pub skip_spaces : Bytes → Bytes
skip_spaces [] = []
skip_spaces (c ∷ cs) = let rest = skip_spaces cs in if is_space c then rest else c ∷ cs

-- The loop that shortens the string while its last character is a space.
unfoldable pub trim_end : Bytes → Bytes
trim_end s = reverse (skip_spaces (reverse s))

-- `colon` is the position of the ':' in the line.
unfoldable pub add_header : HttpRequest → Bytes → ℕ → HttpRequest
add_header r line colon = record r {
  headers = insert (take colon line) (trim_end (skip_spaces (drop (colon + 1) line))) r.headers;
}

unfoldable pub get_header : HttpRequest → Bytes → Bytes
get_header r field = or_empty (lookup field r.headers)

-- `a.Swap(b)`: the new a and the new b.
unfoldable pub swap_request : HttpRequest → HttpRequest → HttpRequest × HttpRequest
swap_request a b = (
  record a {
    method = b.method;
    version = b.version;
    path = b.path;
    querys = b.querys;
    headers = b.headers;
    receive_time = b.receive_time;
  },
  record b {
    method = a.method;
    version = a.version;
    path = a.path;
    querys = a.querys;
    headers = a.headers;
    receive_time = a.receive_time;
  },
)
