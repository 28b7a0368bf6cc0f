-- ===== src/Http/File/Text.antt =====
-- http/file.cpp: the loop of ReadAsText.

use sinetlib.Base.{
  ℕ, zero, suc, ◌+◌, ◌-◌, ◌<◌, ◌≡◌, sym, ap, ◌∙◌, inl, inr, Bool-cases, [], ◌∷◌, ◌++◌, some, length,
  take, drop, ◌==◌, length-append, length-drop, take_all, take-length-append, append_assoc, arith,
  Bytes,
}
use sinetlib.Http.File.{read_loop, read_as_text}
use sinetlib.Net.Buffer.{find_byte}
use sinetlib.Net.Buffer.Search.{find_byte-le, find_byte-splits}

pub read_loop-collects :
    (fuel : ℕ) (rest content : Bytes)
    → length rest < fuel
    → read_loop fuel rest content ≡ content ++ (rest ++ 10 ∷ [])
unfolding read_loop
read_loop-collects zero rest content h = absurd (omega arith)
read_loop-collects (suc fuel) rest content h =
    elim (Bool-cases (find_byte 10 rest == length rest)) [
      | inl end ↦
          rw end
            (ap (λ t. content ++ (t ++ 10 ∷ [])) (take_all (find_byte 10 rest) rest (ground arith)))
      | inr more ↦ rw more (
          read_loop-collects fuel (drop (find_byte 10 rest + 1) rest)
            (content ++ (take (find_byte 10 rest) rest ++ 10 ∷ []))
            (ground (arith, length-drop (find_byte 10 rest + 1) rest, find_byte-le 10 rest))
          ∙ append_assoc content (take (find_byte 10 rest) rest ++ 10 ∷ []) _
          ∙ ap (λ t. content ++ t)
              (append_assoc (take (find_byte 10 rest) rest) (10 ∷ []) _
                ∙ sym (
                    append_assoc (take (find_byte 10 rest) rest)
                      (10 ∷ drop (find_byte 10 rest + 1) rest) (10 ∷ []))
                ∙ ap (λ t. t ++ 10 ∷ [])
                    (sym (find_byte-splits 10 rest (ground (arith, find_byte-le 10 rest))))))
    ]

-- Of a file that can be opened, whatever its text, ReadAsText returns exactly the text.
pub read_as_text_lem : (text : Bytes) → read_as_text (some text) ≡ text
unfolding read_as_text
read_as_text_lem text =
    rw (read_loop-collects (length text + 1) text [] (omega arith), length-append text (10 ∷ []))
      (take-length-append text (10 ∷ []) (length text + 1 - 1) (omega arith))
