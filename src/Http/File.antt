-- ===== src/Http/File.antt =====
-- http/file.h and http/file.cpp: class File. The file system is an argument, an interface of what the
-- code asks of it. A path is its bytes.
pub mod Names
pub mod Text
use sinetlib.Base.{
  ℕ, zero, suc, ◌+◌, ◌-◌, Bool, true, false, not, ◌&&◌, ◌||◌, Option, none, some, List, [], ◌∷◌,
  ◌++◌, ◌==◌, if◌then◌else◌, length, take, drop, Bytes, codes, equal, Dict, lookup,
}
use sinetlib.Net.Buffer
use sinetlib.Net.Buffer.{Buffer, find_byte}
use sinetlib.Util.{Timespec, timespec_to_timestamp, to_lower}

-- The kinds that `st_mode` tells apart here.
pub data FileKind : Type 0 where
  regular directory link other : FileKind

pub record Stat : Type 0 where
  pub kind : FileKind
  pub size : ℕ
  pub ctim : Timespec
  pub mtim : Timespec

-- `stat` on a path; the bytes that a mapping of the file shows, if it can be opened and mapped; the
-- entries of a directory, if it can be opened.
pub record FileSystem : Type 0 where
  pub stat : Bytes → Option Stat
  pub mapped : Bytes → Option Bytes
  pub entries : Bytes → Option (List Bytes)

-- `file_stat_` and `exist_` are one field: `none` where the file does not exist.
pub record File : Type 0 where
  pub path : Bytes
  pub file_stat : Option Stat

-- `mime_`; a key that stands twice counts once.
abbrev pub mime : Dict
mime =
    (codes "default", codes "text/plain")
    ∷ (codes "html", codes "text/html")
    ∷ (codes "htm", codes "text/html")
    ∷ (codes "css", codes "text/css")
    ∷ (codes "js", codes "text/javascript")
    ∷ (codes "txt", codes "text/plain")
    ∷ (codes "csv", codes "text/csv")
    ∷ (codes "jpeg", codes "image/jpeg")
    ∷ (codes "jpg", codes "image/jpeg")
    ∷ (codes "png", codes "image/png")
    ∷ (codes "gif", codes "image/gif")
    ∷ (codes "bmp", codes "image/bmp")
    ∷ (codes "ico", codes "image/x_icon")
    ∷ (codes "mp3", codes "audio/mp3")
    ∷ (codes "avi", codes "video/x-msvideo")
    ∷ (codes "json", codes "application/json")
    ∷ (codes "doc", codes "application/msword")
    ∷ (codes "ppt", codes "application/vnd.ms-powerpoint")
    ∷ (codes "pdf", codes "application/pdf")
    ∷ (codes "gz", codes "application/x-gzip")
    ∷ (codes "tar", codes "application/x-tar")
    ∷ []

-- The last byte of a text.
unfoldable pub last_byte : Bytes → Option ℕ
last_byte [] = none
last_byte (c ∷ []) = some c
last_byte (c ∷ (d ∷ cs)) = last_byte (d ∷ cs)

-- `string::find_last_of` a byte.
unfoldable pub find_last : ℕ → Bytes → Option ℕ
find_last c [] = none
find_last c (x ∷ xs) = elim (find_last c xs) [
  | none ↦ if x == c then some 0 else none
  | some i ↦ some (i + 1)
]

module _ (fs : FileSystem) where
  -- The constructor; `none` is the read in front of an empty path.
  unfoldable pub new_file : Bytes → Option File
  new_file path = elim (last_byte path) [
    | none ↦ none
    | some c ↦
        let p = (if c == b'/' then take (length path - 1) path else path) in
        some (record { path = p; file_stat = fs.stat p })
  ]

  -- ReadToBuffer: nothing is appended where the file cannot be opened or mapped.
  unfoldable pub read_to_buffer : File → Buffer → Buffer
  read_to_buffer f b = elim (fs.mapped f.path) [ none ↦ b | some text ↦ Buffer.append b text ]

  unfoldable pub is_dots : Bytes → Bool
  is_dots name = equal name (codes ".") || equal name (codes "..")

  unfoldable pub list_entries : Bytes → List Bytes → Option (List File)
  list_entries path [] = some []
  list_entries path (name ∷ names) = elim (list_entries path names) [
    | none ↦ none
    | some files ↦ elim (is_dots name) [
      | true ↦ some files
      | false ↦ elim (new_file (path ++ b'/' ∷ name)) [ none ↦ none | some f ↦ some (f ∷ files) ]
    ]
  ]

  -- ListDir; `none` is a `readdir` of a directory that was not opened.
  unfoldable pub list_dir : File → Option (List File)
  list_dir f = elim (fs.entries f.path) [ none ↦ none | some names ↦ list_entries f.path names ]

unfoldable pub exist : File → Bool
exist f = elim f.file_stat [ none ↦ false | some s ↦ true ]

abbrev pub is_regular : FileKind → Bool
is_regular regular = true
is_regular _ = false

abbrev pub is_directory : FileKind → Bool
is_directory directory = true
is_directory _ = false

abbrev pub is_symbolic : FileKind → Bool
is_symbolic link = true
is_symbolic _ = false

unfoldable pub is_file : File → Bool
is_file f = elim f.file_stat [ none ↦ false | some s ↦ is_regular s.kind ]

unfoldable pub is_dir : File → Bool
is_dir f = elim f.file_stat [ none ↦ false | some s ↦ is_directory s.kind ]

unfoldable pub is_link : File → Bool
is_link f = elim f.file_stat [ none ↦ false | some s ↦ is_symbolic s.kind ]

-- `now` is what the clock shows.
unfoldable pub get_create_time : ℕ → File → ℕ
get_create_time now f = elim f.file_stat [ none ↦ now | some s ↦ timespec_to_timestamp s.ctim ]

unfoldable pub get_modify_time : ℕ → File → ℕ
get_modify_time now f = elim f.file_stat [ none ↦ now | some s ↦ timespec_to_timestamp s.mtim ]

unfoldable pub get_size : File → ℕ
get_size f = elim f.file_stat [ none ↦ 0 | some s ↦ s.size ]

-- The path behind its last slash.
unfoldable pub get_name : File → Bytes
get_name f = elim (find_last b'/' f.path) [ none ↦ f.path | some i ↦ drop (i + 1) f.path ]

-- The part of a name behind its last dot, in lower case.
unfoldable pub ext_of : Bytes → Bytes
ext_of name = elim (find_last b'.' name) [
  | none ↦ []
  | some p ↦ if p + 1 == length name then [] else to_lower (drop (p + 1) name)
]

unfoldable pub get_ext : File → Bytes
get_ext f = ext_of (get_name f)

-- The value of a key, or that of "default".
unfoldable pub mime_of : Bytes → Bytes
mime_of ext = elim (lookup ext mime) [ none ↦ codes "text/plain" | some v ↦ v ]

unfoldable pub get_mime_type : File → Bytes
get_mime_type f = mime_of (get_ext f)

-- The `while` loop of ReadAsText: `getline` takes a line and the line feed behind it, and has met the
-- end of the stream if there is no line feed.
unfoldable pub read_loop : ℕ → Bytes → Bytes → Bytes
read_loop zero rest content = content
read_loop (suc fuel) rest content =
    let n = find_byte 10 rest in
    let line = content ++ (take n rest ++ 10 ∷ []) in
    let further = read_loop fuel (drop (n + 1) rest) line in
    if n == length rest then line else further

-- ReadAsText; `opened` is the text of the file, if it can be opened. The last byte is erased.
unfoldable pub read_as_text : Option Bytes → Bytes
read_as_text none = []
read_as_text (some text) =
    let content = read_loop (length text + 1) text [] in take (length content - 1) content
