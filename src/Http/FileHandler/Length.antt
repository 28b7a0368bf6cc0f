-- ===== src/Http/FileHandler/Length.antt =====
-- http/filehandler.cpp: the length that a response announces, and the bytes behind the header.
use sinetlib.Base.{
  ℕ, ◌+◌, ◌≡◌, refl, sym, ap, ◌∙◌, inl, inr, Bool, true, false, Bool-cases, Option-cases, Option,
  none, some, List, ◌++◌, length, Bytes, codes, Dict, subst,
}
use sinetlib.Http.File.{
  File, Stat, FileSystem, new_file, list_dir, exist, is_regular, is_file, get_size, get_mime_type,
  read_to_buffer,
}
use sinetlib.Http.FileHandler.{
  file_path, listing, set_found, set_length, answer_file, answer_directory, answer_missing, handler,
}
use sinetlib.Http.Request.{HttpRequest}
use sinetlib.Http.Response.{
  HttpResponse, set_status_code, set_status_message, set_close_connection, set_content_type,
  add_header, header_pieces, append_header_to_buffer, append_body_to_buffer,
}
use sinetlib.Http.Response.Written.{joined, response_written}
use sinetlib.Net.Buffer
use sinetlib.Net.Buffer.{Buffer}
use sinetlib.Net.Buffer.Valid.{IsValid, Fits}
use sinetlib.Http.FileHandler.Served.{
  IsServed, body_of, missing_head, head_of, heading_of, Answers, set_length-announced,
  list_entries-total,
}

module _ (order : Dict → List (Bytes × Bytes)) where
  -- A response that still has the buffer of `r`, once its length is set and all is appended.
  write-Answers :
      (r h : HttpResponse) (body : Bytes)
      → h.buffer ≡ r.buffer
      → IsValid r.buffer
      → Fits r.buffer (
          length (
            joined (
              header_pieces
                (set_length h (length body))
                (order (set_length h (length body)).headers)))
          + length body)
      → Answers order r
          (set_length h (length body))
          body
          (append_body_to_buffer (append_header_to_buffer order (set_length h (length body))) body)
  write-Answers r h body e v f =
      let k = set_length h (length body) in
      let n = length (joined (header_pieces k (order k.headers))) + length body in
      let b : k.buffer ≡ r.buffer = (unfold set_length add_header in e) in
      let w =
        response_written order k body (subst (λ x. IsValid x) (sym b) v)
          (subst (λ x. Fits x n) (sym b) f) in
      record {
        announced =
            unfold append_body_to_buffer append_header_to_buffer in
            set_length-announced h (length body);
        status = unfold append_body_to_buffer append_header_to_buffer in refl;
        valid = w.0;
        bytes =
            w.1
            ∙ ap (λ x. (Buffer.readable x ++ joined (header_pieces k (order k.headers))) ++ body) b;
      }

  module _ (fs : FileSystem) (file : File) (response : HttpResponse) (v : IsValid response.buffer)
      (f : Fits response.buffer (
        length (
          joined (
            header_pieces
              (heading_of fs file response)
              (order (heading_of fs file response).headers)))
        + length (body_of fs file))) where
    answer_missing-Answers :
        exist file ≡ false
        → Answers order response
            (heading_of fs file response)
            (body_of fs file)
            (answer_missing fs order response)
    unfolding answer_missing
    answer_missing-Answers e =
        rw (head, body)
          (write-Answers response (missing_head response) (codes "404 page not found") kept v
            (rw (head, body) at f))
      where
        head : head_of file response ≡ missing_head response
        head = unfold head_of in rw e refl

        body : body_of fs file ≡ codes "404 page not found"
        body = unfold body_of in rw e refl

        kept : (missing_head response).buffer ≡ response.buffer
        kept =
            unfold set_status_code set_status_message set_close_connection set_content_type
              add_header in
            refl

    module _ (e : exist file ≡ true) where
      answer_file-Answers :
          is_file file ≡ true
          → (text : Bytes) × (fs.mapped file.path ≡ some text) × (length text ≡ get_size file)
          → Answers order response
              (heading_of fs file response)
              (body_of fs file)
              (answer_file fs order file response)
      unfolding answer_file
      answer_file-Answers i m =
          rw (head, body)
            ((subst (λ s. Answers order response (set_length start (length m.0)) m.0 s) written
              (write-Answers response start m.0 kept v (rw (head, body) at f))))
        where
          start : HttpResponse
          start = set_found response (get_mime_type file)

          head : head_of file response ≡ start
          head = unfold head_of in rw (e, i) refl

          body : body_of fs file ≡ m.0
          body = unfold body_of in rw (e, i, m.1) refl

          kept : start.buffer ≡ response.buffer
          kept =
              unfold set_found set_status_code set_status_message set_content_type add_header in
              refl

          read : (b : Buffer) → read_to_buffer fs file b ≡ Buffer.append b m.0
          read b = unfold read_to_buffer in rw (m.1, read_to_buffer) refl

          written :
              append_body_to_buffer
                (append_header_to_buffer order (set_length start (length m.0)))
                m.0
              ≡ answer_file fs order file response
          written = unfold append_body_to_buffer in rw (m.2, read) refl

      answer_directory-Answers :
          is_file file ≡ false
          → (names : List Bytes) × (fs.entries file.path ≡ some names)
          → (s : HttpResponse) × (answer_directory fs order file response ≡ some s)
            × Answers order response (heading_of fs file response) (body_of fs file) s
      unfolding answer_directory list_dir
      answer_directory-Answers i m =
          let total = list_entries-total fs file.path m.0 in
          let listed : list_dir fs file ≡ some total.0 = rw (m.1, list_dir) total.1 in
          rw (head, body total.0 listed)
            (rw (listed, answer_directory)
              (
                _,
                refl,
                write-Answers response start (listing total.0) kept v
                    (rw (head, body total.0 listed) at f),
              ))
        where
          start : HttpResponse
          start = set_found response (codes "text/html")

          head : head_of file response ≡ start
          head = unfold head_of in rw (e, i) refl

          body :
              (files : List File) → list_dir fs file ≡ some files → body_of fs file ≡ listing files
          body files l = unfold body_of in rw (e, i, l) refl

          kept : start.buffer ≡ response.buffer
          kept =
              unfold set_found set_status_code set_status_message set_content_type add_header in
              refl

-- What the tests say of a file that `stat` knows, or does not know.
module _ (file : File) where
  exist-of :
      (o : Option Stat)
      → file.file_stat ≡ o
      → exist file ≡ (elim o [ none ↦ false | some s ↦ true ])
  unfolding exist
  exist-of o e = ap (λ o. elim o [ none ↦ false | some s ↦ true ]) e

  is_file-of : (s : Stat) → file.file_stat ≡ some s → is_file file ≡ is_regular s.kind
  unfolding is_file
  is_file-of s e = ap (λ o. elim o as (λ x. Bool) [ none ↦ false | some s ↦ is_regular s.kind ]) e

  get_size-of : (s : Stat) → file.file_stat ≡ some s → get_size file ≡ s.size
  unfolding get_size
  get_size-of s e = ap (λ o. elim o as (λ x. ℕ) [ none ↦ 0 | some s ↦ s.size ]) e

-- The file system serves only regular files, mapped with the size that `stat` gives, and directories
-- that can be opened; the path is not empty; the buffer of the response is valid and stays below
-- 2^64 bytes. Then Handler fills the response whatever the file is, a missing one included: the
-- Content-Length is the number of bytes of the body, and the buffer gets the header, which has that
-- length and the status, and then exactly this body, the file's text, the listing or the 404 text.
pub handler-Answers :
    (fs : FileSystem) (order : Dict → List (Bytes × Bytes)) (prefix_path : Bytes)
    (request : HttpRequest) (match_map : Dict) (response : HttpResponse) (file : File)
    → new_file fs (prefix_path ++ file_path match_map) ≡ some file
    → IsServed fs file
    → IsValid response.buffer
    → Fits response.buffer (
        length (
          joined (
            header_pieces
              (heading_of fs file response)
              (order (heading_of fs file response).headers)))
        + length (body_of fs file))
    → (s : HttpResponse) × (handler fs order prefix_path request match_map response ≡ some s)
      × Answers order response (heading_of fs file response) (body_of fs file) s
unfolding handler
handler-Answers fs order prefix_path request match_map response file e served v f =
    rw (e, handler)
      (elim (Option-cases file.file_stat) [
        | inl gone ↦
            let missing = exist-of file none gone in
            rw missing (
              answer_missing fs order response,
              refl,
              answer_missing-Answers order fs file response v f missing,
            )
        | inr here ↦
            let there = exist-of file (some here.0) here.1 in
            let kind = is_file-of file here.0 here.1 in
            rw there (elim (Bool-cases (is_regular here.0.kind)) [
              | inl plain ↦
                  let r = served.reads here.0 here.1 plain in
                  rw (kind ∙ plain) (
                    answer_file fs order file response,
                    refl,
                    answer_file-Answers order fs file response v f there (kind ∙ plain)
                        (r.0, r.1, r.2 ∙ sym (get_size-of file here.0 here.1)),
                  )
              | inr other ↦ rw (kind ∙ other) (
                  answer_directory-Answers order fs file response v f there (kind ∙ other)
                    (served.lists here.0 here.1 other))
            ])
      ])
