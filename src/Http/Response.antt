-- ===== src/Http/Response.antt =====
-- http/httpresponse.h and http/httpresponse.cpp: class HttpResponse. The order in which the headers
-- are written is an argument: the standard leaves it open for an unordered_map.
pub mod Written
use sinetlib.Base.{
  ℕ, ◌+◌, Bool, List, [], ◌∷◌, ◌++◌, if◌then◌else◌, length, Bytes, codes, Dict, insert,
}
use sinetlib.Base.Int.{pos}
use sinetlib.Log.Stream.{convert}
use sinetlib.Net.Buffer
use sinetlib.Net.Buffer.{Buffer, initial_size}

pub data HttpStatusCode : Type 0 where
  unknown ok moved_permanently bad_request not_found : HttpStatusCode

-- The numbers of the enumeration.
abbrev pub code_number : HttpStatusCode → ℕ
code_number unknown = 0
code_number ok = 200
code_number moved_permanently = 301
code_number bad_request = 400
code_number not_found = 404

pub record HttpResponse : Type 0 where
  pub close_connection : Bool
  pub status_code : HttpStatusCode
  pub status_message : Bytes
  pub headers : Dict
  pub buffer : Buffer

-- The constructor.
unfoldable pub new_response : Bool → HttpResponse
new_response close = record {
  close_connection = close;
  status_code = unknown;
  status_message = [];
  headers = [];
  buffer = Buffer.new initial_size;
}

unfoldable pub set_close_connection : HttpResponse → Bool → HttpResponse
set_close_connection r on = record r { close_connection = on }

unfoldable pub set_status_code : HttpResponse → HttpStatusCode → HttpResponse
set_status_code r code = record r { status_code = code }

unfoldable pub set_status_message : HttpResponse → Bytes → HttpResponse
set_status_message r message = record r { status_message = message }

unfoldable pub add_header : HttpResponse → Bytes → Bytes → HttpResponse
add_header r field value = record r { headers = insert field value r.headers }

unfoldable pub set_content_type : HttpResponse → Bytes → HttpResponse
set_content_type r content_type =
    add_header r (codes "Content-Type") (content_type ++ codes "; charset=utf-8")

-- The texts appended to a buffer, one after the other.
unfoldable pub append_all : Buffer → List Bytes → Buffer
append_all b [] = b
append_all b (text ∷ texts) = append_all (Buffer.append b text) texts

unfoldable pub header_texts : List (Bytes × Bytes) → List Bytes
header_texts [] = []
header_texts ((field, value) ∷ hs) = field ∷ codes ": " ∷ value ∷ codes "\r\n" ∷ header_texts hs

-- What AppendHeaderToBuffer appends; `snprintf` writes the number in decimal.
unfoldable pub header_pieces : HttpResponse → List (Bytes × Bytes) → List Bytes
header_pieces r headers =
    (codes "HTTP/1.1 " ++ convert (pos (code_number r.status_code)) ++ codes " ")
    ∷ r.status_message
    ∷ codes "\r\n"
    ∷ (if r.close_connection
        then codes "Connection: close\r\n"
        else codes "Connection: keep-alive\r\n")
    ∷ (header_texts headers ++ codes "\r\n" ∷ [])

-- `order` is the order of iteration over the headers.
unfoldable pub append_header_to_buffer : (Dict → List (Bytes × Bytes)) → HttpResponse → HttpResponse
append_header_to_buffer order r = record r {
  buffer = append_all r.buffer (header_pieces r (order r.headers));
}

unfoldable pub append_body_to_buffer : HttpResponse → Bytes → HttpResponse
append_body_to_buffer r body = record r { buffer = Buffer.append r.buffer body }
