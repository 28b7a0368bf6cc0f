-- ===== src/Log/File.antt =====
-- log/fileutil.h, log/fileutil.cpp, log/logfile.h and log/logfile.cpp: classes AppendFile and
-- LogFile. What `fwrite_unlocked` returns is an argument: how many of the bytes the i-th call
-- took, never more than it is given.
use sinetlib.Base.{
  ℕ, zero, suc, ◌+◌, ◌*◌, ◌<◌, ◌≡◌, ◌≢◌, ◌⊎◌, refl, sym, ap, ◌∙◌, inl, inr, Bool-cases, false,
  Option, none, some, List, [], ◌∷◌, ◌++◌, ◌==◌, leb, if◌then◌else◌, length, take, drop,
  length-drop, take-append-drop, append_assoc, append-nil, Bytes, arith, leb→le,
}

module _ (fwrite : ℕ → Bytes → ℕ) where
  -- The `while` loop of AppendFile::Append: the rest of the data, and the bytes that the stream
  -- has.
  unfoldable pub append_loop : ℕ → ℕ → Bytes → Bytes → Option Bytes
  append_loop zero i rest file = none
  append_loop (suc fuel) i rest file =
      let n = fwrite i rest in
      let further = append_loop fuel (i + 1) (drop n rest) (file ++ take n rest) in
      if length rest == 0 then some file else if n == 0 then some file else further

  -- AppendFile::Append. Every round of the loop but the last takes a byte or more.
  unfoldable pub append_file : Bytes → Bytes → Option Bytes
  append_file file text =
      let n = fwrite 0 text in append_loop (length text + 1) 1 (drop n text) (file ++ take n text)

  -- What comes out of a text: all of it, or a part behind which `fwrite` took nothing of the rest.
  abbrev pub IsOut : Bytes → Bytes → Type 0
  IsOut text out =
      (out ≡ text)
      ⊎ ((i : ℕ) × (rest : Bytes) × (text ≡ out ++ rest) × (rest ≢ []) × (fwrite i rest ≡ 0))

  -- Some bytes have gone out before.
  IsOut-behind :
      (n : ℕ) (text out : Bytes) → IsOut (drop n text) out → IsOut text (take n text ++ out)
  IsOut-behind n text out (inl all) = inl (ap (◌++◌ (take n text)) all ∙ take-append-drop n text)
  IsOut-behind n text out (inr (i, rest, split, left, stopped)) = inr (
    i,
    rest,
    sym (take-append-drop n text)
        ∙ ap (◌++◌ (take n text)) split
        ∙ sym (append_assoc (take n text) out rest),
    left,
    stopped,
  )

  append_loop-IsOut :
      (fuel i : ℕ) (rest file : Bytes)
      → length rest < fuel
      → (out : Bytes) × (append_loop fuel i rest file ≡ some (file ++ out)) × IsOut rest out
  unfolding append_loop
  append_loop-IsOut zero i rest file h = absurd (omega arith)
  append_loop-IsOut (suc fuel) i [] file h = ([], ap some (sym (append-nil file)), inl refl)
  append_loop-IsOut (suc fuel) i (x ∷ xs) file h =
      let n = fwrite i (x ∷ xs) in
      elim (Bool-cases (n == 0)) [
        | inl nothing ↦ (
          [],
          rw (nonempty, nothing) (ap some (sym (append-nil file))),
          inr (i, x ∷ xs, refl, (λ e. cc), ground (arith, nothing)),
        )
        | inr something ↦
            let positive : 0 < n = ground (arith, something) in
            let (out, run, part) =
              append_loop-IsOut fuel (i + 1) (drop n (x ∷ xs)) (file ++ take n (x ∷ xs))
                (omega (arith, positive, length-drop n (x ∷ xs))) in
            (
              take n (x ∷ xs) ++ out,
              rw (nonempty, something) (run ∙ ap some (append_assoc file (take n (x ∷ xs)) out)),
              IsOut-behind n (x ∷ xs) out part,
            )
      ]
    where
      nonempty : (length (x ∷ xs) == 0) ≡ false
      nonempty = ground arith

  -- AppendFile::Append ends, with the whole text behind what the stream had, or a part of it where
  -- `fwrite` took nothing of the rest.
  pub append_file-IsOut :
      (file text : Bytes)
      → (out : Bytes) × (append_file file text ≡ some (file ++ out)) × IsOut text out
  unfolding append_file
  append_file-IsOut file text =
      let n = fwrite 0 text in
      let (out, run, part) =
        append_loop-IsOut (length text + 1) 1 (drop n text) (file ++ take n text)
          (omega (arith, length-drop n text)) in
      (
        take n text ++ out,
        run ∙ ap some (append_assoc file (take n text) out),
        IsOut-behind n text out part,
      )

-- LogFile: count_ and flush_every_n_, what its stream has, and how often Flush was called.
pub record LogFile : Type 0 where
  pub flush_every_n : ℕ
  pub count : ℕ
  pub flushes : ℕ
  pub file : Bytes

-- The constructor, of a stream that has something already.
abbrev pub new_log_file : ℕ → Bytes → LogFile
new_log_file n file = record { flush_every_n = n; count = 0; flushes = 0; file = file }

unfoldable pub flush : LogFile → LogFile
flush f = record f { flushes = f.flushes + 1 }

-- LogFile::Append behind the call of AppendFile::Append.
unfoldable pub count_line : LogFile → LogFile
count_line f =
    if leb f.flush_every_n (f.count + 1)
    then flush (record f { count = 0 })
    else record f { count = f.count + 1 }

-- LogFile::Append.
unfoldable pub append_line : (ℕ → Bytes → ℕ) → LogFile → Bytes → Option LogFile
append_line fwrite f text = elim (append_file fwrite f.file text) [
  | none ↦ none
  | some file ↦ some (count_line (record f { file = file }))
]

-- One append after the other; `fwrite j` is what the stream takes in the j-th of them.
unfoldable pub append_lines : (ℕ → ℕ → Bytes → ℕ) → ℕ → LogFile → List Bytes → Option LogFile
append_lines fwrite j f [] = some f
append_lines fwrite j f (text ∷ texts) = elim (append_line (fwrite j) f text) [
  | none ↦ none
  | some g ↦ append_lines fwrite (j + 1) g texts
]

abbrev pub all_of : List Bytes → Bytes
all_of [] = []
all_of (text ∷ texts) = text ++ all_of texts

-- Of the lines appended so far some are flushed, and fewer than `flush_every_n` are not.
abbrev pub Counts : LogFile → ℕ → LogFile → Bytes → Type 0
Counts f k g more =
    (g.count < f.flush_every_n)
    × (g.flushes * f.flush_every_n + g.count ≡ f.flushes * f.flush_every_n + f.count + k)
    × (g.file ≡ f.file ++ more)
    × (g.flush_every_n ≡ f.flush_every_n)

count_line-Counts : (f : LogFile) → f.count < f.flush_every_n → Counts f 1 (count_line f) []
unfolding count_line flush
count_line-Counts f h = elim (Bool-cases (leb f.flush_every_n (f.count + 1))) [
  | inl full ↦ rw full (
    ground arith,
    grind (arith, leb→le f.flush_every_n (f.count + 1) full),
    sym (append-nil f.file),
    refl,
  )
  | inr more ↦ rw more (ground arith, omega arith, sym (append-nil f.file), refl)
]

Counts-trans :
    (f g r : LogFile) (l : ℕ) (xs ys : Bytes)
    → Counts f 1 g xs
    → Counts g l r ys
    → Counts f (suc l) r (xs ++ ys)
Counts-trans f g r l xs ys c d = (
  omega (arith, d.0, c.3),
  grind (arith, c.1, d.1, c.3),
  d.2 ∙ ap (λ t. t ++ ys) c.2 ∙ append_assoc f.file xs ys,
  d.3 ∙ c.3,
)

module _ (fwrite : ℕ → ℕ → Bytes → ℕ) where
  -- What comes out of each text.
  abbrev pub AreOut : ℕ → List Bytes → List Bytes → Type 0
  AreOut j [] [] = Unit {0}
  AreOut j (text ∷ texts) (out ∷ outs) = IsOut (fwrite j) text out × AreOut (j + 1) texts outs
  AreOut j _ _ = ⊥

  append_line-Counts :
      (j : ℕ) (f : LogFile) (text : Bytes)
      → f.count < f.flush_every_n
      → (g : LogFile) × (out : Bytes) × (append_line (fwrite j) f text ≡ some g)
        × Counts f 1 g out
        × IsOut (fwrite j) text out
  unfolding append_line
  append_line-Counts j f text h =
      let (out, run, part) = append_file-IsOut (fwrite j) f.file text in
      let c = count_line-Counts (record f { file = f.file ++ out }) h in
      (
        count_line (record f { file = f.file ++ out }),
        out,
        rw (run, append_line) refl,
        (c.0, c.1, c.2 ∙ append-nil (f.file ++ out), c.3),
        part,
      )

  append_lines-cons :
      (j : ℕ) (f g r : LogFile) (text : Bytes) (texts : List Bytes)
      → append_line (fwrite j) f text ≡ some g
      → append_lines fwrite (j + 1) g texts ≡ some r
      → append_lines fwrite j f (text ∷ texts) ≡ some r
  unfolding append_lines
  append_lines-cons j f g r text texts e d = rw (e, append_lines) d

  append_lines-Counts :
      (j : ℕ) (texts : List Bytes) (f : LogFile)
      → f.count < f.flush_every_n
      → (g : LogFile) × (outs : List Bytes) × (append_lines fwrite j f texts ≡ some g)
        × Counts f (length texts) g (all_of outs)
        × AreOut j texts outs
  unfolding append_lines
  append_lines-Counts j [] f h = (f, [], refl, (h, omega arith, sym (append-nil f.file), refl), tt)
  append_lines-Counts j (text ∷ texts) f h =
      let (g, out, e, c, part) = append_line-Counts j f text h in
      let (r, outs, d, m, parts) = append_lines-Counts (j + 1) texts g (omega (arith, c.0, c.3)) in
      (
        r,
        out ∷ outs,
        append_lines-cons j f g r text texts e d,
        Counts-trans f g r (length texts) out (all_of outs) c m,
        (part, parts),
      )

  -- Whatever `fwrite` takes of what it is given: all appends to a new file that is flushed every n
  -- lines, n > 0, end; of each line the whole goes out behind what the file had, in order, or a part
  -- of it where `fwrite` took nothing of the rest; fewer than n lines wait for a flush, and a flush
  -- was made for each n of the others.
  pub append_lines-flushes :
      (n : ℕ) (file : Bytes) (texts : List Bytes)
      → 0 < n
      → (g : LogFile) × (outs : List Bytes) × (append_lines fwrite 0 (new_log_file n file) texts
          ≡ some g)
        × AreOut 0 texts outs
        × (g.file ≡ file ++ all_of outs)
        × (g.count < n)
        × (g.flushes * n + g.count ≡ length texts)
  append_lines-flushes n file texts h =
      let (g, outs, e, c, parts) = append_lines-Counts 0 texts (new_log_file n file) h in
      (g, outs, e, parts, c.2, c.0, omega (arith, c.1))
