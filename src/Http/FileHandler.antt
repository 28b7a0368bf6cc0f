-- ===== src/Http/FileHandler.antt =====
-- http/filehandler.h and http/filehandler.cpp: class FileHandler.
pub mod Served
pub mod Length
use sinetlib.Base.{
  ℕ, Bool, true, false, Option, none, some, List, [], ◌∷◌, ◌++◌, if◌then◌else◌, length, Bytes,
  codes, Dict, lookup,
}
use sinetlib.Base.Int.{pos}
use sinetlib.Http.File.{
  File, FileSystem, new_file, exist, is_file, is_dir, get_name, get_size, get_mime_type, list_dir,
  read_to_buffer,
}
use sinetlib.Http.Request.{HttpRequest}
use sinetlib.Http.Response.{
  HttpResponse, ok, not_found, set_status_code, set_status_message, set_close_connection,
  set_content_type, add_header, append_header_to_buffer, append_body_to_buffer,
}
use sinetlib.Log.Stream.{convert}

-- `match_map["file_path"]`: a missing key reads as the empty string.
unfoldable pub file_path : Dict → Bytes
file_path match_map = elim (lookup (codes "file_path") match_map) [ none ↦ [] | some path ↦ path ]

-- The line of a directory's listing for one entry.
unfoldable pub entry_line : File → Bytes
entry_line f =
    let slash = (if is_dir f then codes "/" else []) in
    codes "<a href=\""
    ++ get_name f
    ++ slash
    ++ codes "\">"
    ++ get_name f
    ++ slash
    ++ codes "</a>\n"

unfoldable pub entry_lines : List File → Bytes
entry_lines [] = []
entry_lines (f ∷ fs) = entry_line f ++ entry_lines fs

-- The text of a directory's listing.
unfoldable pub listing : List File → Bytes
listing files = codes "<pre>\n" ++ entry_lines files ++ codes "</pre>"

-- The status of a response that is found.
unfoldable pub set_found : HttpResponse → Bytes → HttpResponse
set_found response content_type =
    let r = set_status_code response ok in
    let r = set_status_message r (codes "OK") in set_content_type r content_type

-- Content-Length, as `std::to_string` writes it.
unfoldable pub set_length : HttpResponse → ℕ → HttpResponse
set_length r n = add_header r (codes "Content-Length") (convert (pos n))

module _ (fs : FileSystem) (order : Dict → List (Bytes × Bytes)) where
  -- The branch of a regular file: the header, then the file.
  unfoldable pub answer_file : File → HttpResponse → HttpResponse
  answer_file file response =
      let r = set_length (set_found response (get_mime_type file)) (get_size file) in
      let r = append_header_to_buffer order r in
      record r { buffer = read_to_buffer fs file r.buffer }

  -- The branch of anything else that exists; `none` is what ListDir does with it.
  unfoldable pub answer_directory : File → HttpResponse → Option HttpResponse
  answer_directory file response = elim (list_dir fs file) [
    | none ↦ none
    | some files ↦
        let r = set_found response (codes "text/html") in
        let body = listing files in
        let r = set_length r (length body) in
        some (append_body_to_buffer (append_header_to_buffer order r) body)
  ]

  unfoldable pub answer_missing : HttpResponse → HttpResponse
  answer_missing response =
      let r = set_status_code response not_found in
      let r = set_status_message r (codes "Not Found") in
      let r = set_close_connection r true in
      let r = set_content_type r (codes "text/html") in
      let body = codes "404 page not found" in
      let r = set_length r (length body) in
      append_body_to_buffer (append_header_to_buffer order r) body

  -- Handler; `none` is a read outside a string or of a directory that was not opened.
  unfoldable pub handler : Bytes → HttpRequest → Dict → HttpResponse → Option HttpResponse
  handler prefix_path request match_map response =
      elim (new_file fs (prefix_path ++ file_path match_map)) [
        | none ↦ none
        | some file ↦ elim (exist file) [
          | false ↦ some (answer_missing response)
          | true ↦ elim (is_file file) [
            | true ↦ some (answer_file file response)
            | false ↦ answer_directory file response
          ]
        ]
      ]
