-- ===== src/Http/FileHandler/Served.antt =====
-- http/filehandler.cpp: the answer that belongs to a file, and what is served.
use sinetlib.Base.{
  ℕ, ◌≡◌, refl, ◌∙◌, inl, inr, true, false, Bool-cases, Option, none, some, List, [], ◌∷◌, ◌++◌,
  if◌then◌else◌, length, Bytes, codes, equal_refl, Dict, lookup, lookup-insert,
}
use sinetlib.Base.Int.{pos}
use sinetlib.Http.File.{
  File, Stat, FileSystem, last_byte, new_file, is_dots, list_entries, list_dir, exist, is_regular,
  is_file, get_mime_type,
}
use sinetlib.Http.FileHandler.{listing, set_found, set_length}
use sinetlib.Http.Response.{
  HttpResponse, not_found, set_status_code, set_status_message, set_close_connection,
  set_content_type, add_header, header_pieces,
}
use sinetlib.Http.Response.Written.{joined}
use sinetlib.Log.Stream.{convert}
use sinetlib.Net.Buffer
use sinetlib.Net.Buffer.{Buffer}
use sinetlib.Net.Buffer.Valid.{IsValid}

-- What is served: regular files that can be opened and mapped with the size that `stat` gives, and
-- directories that can be opened.
pub record IsServed (fs : FileSystem) (file : File) : Type 0 where
  pub reads :
      (s : Stat)
      → file.file_stat ≡ some s
      → is_regular s.kind ≡ true
      → (text : Bytes) × (fs.mapped file.path ≡ some text) × (length text ≡ s.size)
  pub lists :
      (s : Stat)
      → file.file_stat ≡ some s
      → is_regular s.kind ≡ false
      → (names : List Bytes) × (fs.entries file.path ≡ some names)

abbrev or_empty {ℓ} : {A : Type ℓ} → Option (List A) → List A
or_empty none = []
or_empty (some xs) = xs

-- The body that belongs to a file: the text of a regular one, the listing of a directory.
unfoldable pub body_of : FileSystem → File → Bytes
body_of fs file =
    if exist file
    then (if is_file file
        then or_empty (fs.mapped file.path)
        else listing (or_empty (list_dir fs file)))
    else codes "404 page not found"

abbrev pub missing_head : HttpResponse → HttpResponse
missing_head r =
    set_content_type
      (set_close_connection (set_status_message (set_status_code r not_found) (codes "Not Found"))
        true)
      (codes "text/html")

-- What is set for it before the length is known.
unfoldable pub head_of : File → HttpResponse → HttpResponse
head_of file response =
    if exist file
    then set_found response (if is_file file then get_mime_type file else codes "text/html")
    else missing_head response

-- The header that belongs to it.
abbrev pub heading_of : FileSystem → File → HttpResponse → HttpResponse
heading_of fs file response = set_length (head_of file response) (length (body_of fs file))

-- A response with the header of `h` and the body, behind what `r` had in its buffer.
pub record Answers (order : Dict → List (Bytes × Bytes)) (r h : HttpResponse) (body : Bytes)
    (s : HttpResponse) : Type 0 where
  pub announced : lookup (codes "Content-Length") s.headers ≡ some (convert (pos (length body)))
  pub status : s.status_code ≡ h.status_code
  pub valid : IsValid s.buffer
  pub bytes :
      Buffer.readable s.buffer
      ≡ (Buffer.readable r.buffer ++ joined (header_pieces h (order h.headers))) ++ body

pub set_length-announced :
    (r : HttpResponse) (n : ℕ)
    → lookup (codes "Content-Length") (set_length r n).headers ≡ some (convert (pos n))
unfolding set_length add_header
set_length-announced r n =
    lookup-insert r.headers (codes "Content-Length") (convert (pos n)) (codes "Content-Length")
    ∙ rw (equal_refl (codes "Content-Length"))

-- Every entry of a directory becomes a File: its path is not empty.
last_byte-behind :
    (path : Bytes) (c : ℕ) (name : Bytes) → (d : ℕ) × (last_byte (path ++ c ∷ name) ≡ some d)
unfolding last_byte
last_byte-behind [] c [] = (c, refl)
last_byte-behind [] c (d ∷ name) = last_byte-behind [] d name
last_byte-behind (x ∷ []) c name = last_byte-behind [] c name
last_byte-behind (x ∷ y ∷ path) c name = last_byte-behind (y ∷ path) c name

new_file-entry :
    (fs : FileSystem) (path name : Bytes)
    → (f : File) × (new_file fs (path ++ b'/' ∷ name) ≡ some f)
unfolding new_file
new_file-entry fs path name =
    let l = last_byte-behind path b'/' name in rw (l.1, new_file) (_, refl)

pub list_entries-total :
    (fs : FileSystem) (path : Bytes) (names : List Bytes)
    → (files : List File) × (list_entries fs path names ≡ some files)
unfolding list_entries
list_entries-total fs path [] = ([], refl)
list_entries-total fs path (name ∷ names) =
    let rest = list_entries-total fs path names in
    let entry = new_file-entry fs path name in
    rw rest.1 (elim (Bool-cases (is_dots fs name)) [
      | inl dots ↦ rw dots (rest.0, refl)
      | inr plain ↦ rw (plain, entry.1) (entry.0 ∷ rest.0, refl)
    ])
