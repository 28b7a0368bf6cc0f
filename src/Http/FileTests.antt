-- ===== src/Http/FileTests.antt =====
-- The theorems on http/file.cpp and http/filehandler.cpp at concrete files.
use sinetlib.Base.{
  ℕ, drop, ◌++◌, ap, ◌∙◌, Bool, ◌≡◌, refl, true, false, Option, none, some, List, [], ◌∷◌, Bytes,
  codes, equal, lookup, Dict, insert, arith,
}
use sinetlib.Http.File.{
  File, regular, Stat, FileSystem, find_last, is_regular, get_ext, last_byte, new_file, exist,
  is_file, get_name, get_size, get_mime_type, ext_of, mime_of,
}
use sinetlib.Http.FileHandler.{file_path, set_found, set_length, handler}
use sinetlib.Http.FileHandler.Served.{IsServed, body_of, head_of, heading_of, Answers}
use sinetlib.Http.FileHandler.Length.{handler-Answers}
use sinetlib.Http.Request.{get_header, HttpRequest, new_request}
use sinetlib.Http.Response.{
  HttpResponse, new_response, set_status_code, set_status_message, set_content_type, add_header,
  header_pieces, header_texts,
}
use sinetlib.Http.Matcher.{
  type_prefix, new_matcher, scan, build, build_names, name_of, group_of, subject, match,
  insert_matches, insert_new,
}
use sinetlib.Http.Router.First.{Accepts, accepts_all, accepts_next, reject_all}
use sinetlib.Http.Router.{Route, match_all}
use sinetlib.Http.Server.Files.{get_handler, file_text, on_request-file}
use sinetlib.Http.Server.{Handler, page_not_found, on_request, wants_close}
use sinetlib.Log.Stream
use sinetlib.Net.Buffer.{initial_size, find_byte}
use sinetlib.Net.Connection.Stream.{Inv, stream}
use sinetlib.Net.Connection.{new_connection, wrote}
use sinetlib.Net.EventBase.{is_writing, enable_read_events}
use sinetlib.Net.Buffer.Contents.{readable-new}
use sinetlib.Net.Buffer
use sinetlib.Net.Buffer.Valid.{new-IsValid}
use sinetlib.Util.{to_lower, to_lower_byte}

abbrev some_stat : Stat
some_stat = record {
  kind = regular;
  size = 2;
  ctim = record { sec = 0; nsec = 0 };
  mtim = record { sec = 0; nsec = 0 };
}

-- Every path is a file of two bytes.
abbrev pub two_bytes : FileSystem
two_bytes = record {
  stat = λ path. some some_stat;
  mapped = λ path. some (codes "hi");
  entries = λ path. none;
}

abbrev some_file : File
some_file = record { path = codes "www/a.html"; file_stat = some some_stat }

abbrev size_of : Option Stat → ℕ
size_of none = 0
size_of (some s) = s.size

abbrev kind_of : Option Stat → Bool
kind_of none = true
kind_of (some s) = is_regular s.kind

impossible : ¬ (true ≡ false)
impossible e = cc

some_file-IsServed : IsServed two_bytes some_file
some_file-IsServed = record {
  reads = λ s e r. (codes "hi", refl, ap size_of e);
  lists = λ s e other. absurd (impossible (ap kind_of e ∙ other));
}

abbrev fresh : HttpResponse
fresh = new_response false

abbrev pub in_order : Dict → List (Bytes × Bytes)
in_order d = d

handler-Answers_example :
    (s : HttpResponse) × (handler two_bytes in_order
        (codes "www/")
        new_request
        ((codes "file_path", codes "a.html") ∷ [])
        fresh
      ≡ some s)
    × Answers in_order fresh (heading_of two_bytes some_file fresh) (body_of two_bytes some_file) s
unfolding new_file last_byte file_path lookup equal new_response body_of head_of exist is_file
    get_name get_size get_mime_type get_ext ext_of mime_of set_found set_length set_status_code
    set_status_message set_content_type add_header header_pieces header_texts insert Stream.convert
    Stream.convert_loop Stream.digit_at to_lower to_lower_byte find_last Buffer.new
handler-Answers_example =
    handler-Answers two_bytes in_order (codes "www/") new_request
      ((codes "file_path", codes "a.html") ∷ []) fresh some_file refl some_file-IsServed
      (new-IsValid 1024) (omega arith)

-- An expression that finds every text, with all but its first byte as the one group.
abbrev pub tail_match : Bytes → Bytes → Option (List Bytes)
tail_match pattern text = some (text ∷ drop 1 text ∷ [])

abbrev file_request : HttpRequest
file_request = record new_request { path = codes "/a.html" }

abbrev file_route : Route Handler
file_route = record {
  handler = some (get_handler two_bytes in_order (codes "www/"));
  matchers = new_matcher (codes "/{file_path}") type_prefix [] ∷ [];
}

file_Accepts : Accepts tail_match file_request file_route.matchers
unfolding new_matcher scan build build_names name_of group_of find_byte subject
file_Accepts = accepts_next (codes "/a.html" ∷ codes "a.html" ∷ []) refl accepts_all

new_Inv : Inv new_connection
unfolding new_connection
new_Inv = record {
  valid = new-IsValid initial_size;
  idle = λ h. readable-new initial_size;
  busy = λ h. unfold is_writing enable_read_events in cc;
}

on_request-file_example :
    let (d, effects) =
      on_request tail_match
        (page_not_found in_order)
        (file_route ∷ [])
        new_connection
        file_request
        (wrote 10) in
    Inv d
    × (stream d ≡ stream new_connection ++ file_text two_bytes in_order file_request some_file)
unfolding new_matcher scan build build_names name_of group_of find_byte subject match match_all
    insert_matches insert_new new_file last_byte file_path lookup equal new_response body_of head_of
    exist is_file wants_close get_header get_name get_size get_mime_type get_ext ext_of mime_of
    set_found set_length set_status_code set_status_message set_content_type add_header
    header_pieces header_texts insert Stream.convert Stream.convert_loop Stream.digit_at to_lower
    to_lower_byte find_last Buffer.new new_connection
on_request-file_example =
    on_request-file tail_match (page_not_found in_order) two_bytes in_order (codes "www/")
      file_request [] [] file_route reject_all file_Accepts refl new_connection (wrote 10) some_file
      refl some_file-IsServed new_Inv (omega arith) (omega arith)
