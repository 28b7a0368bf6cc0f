-- ===== src/Log/Async/Tidy.antt =====
-- log/asynclogger.cpp: the buffers, their sizes, and what appending and taking do to their texts.
use sinetlib.Base.{
  ℕ, zero, suc, ◌^◌, ◌%◌, ◌≤◌, ◌<◌, ◌≡◌, refl, sym, ap, ap₂, ◌∙◌, inl, inr, true, false, ◌||◌,
  Bool-cases, Option, none, some, List, [], ◌∷◌, ◌++◌, append_assoc, append-nil, length, take, ltb,
  Bytes, arith,
}
use sinetlib.Log.Stream
use sinetlib.Log.Stream.{FixedBuffer, available, large_buffer_size, is_negative_int, reset}
use sinetlib.Log.Async.{
  or_new, keep_two, contents, Front, Logger, append_to, thin_out, pop_back, restore,
}

abbrev pub bytes_of : Option FixedBuffer → Bytes
bytes_of none = []
bytes_of (some b) = b.data_

-- All that was appended, oldest first: what is written, what the log thread is to write, the full
-- buffers and the current one.
abbrev pub history : Logger → Bytes
history l = l.written ++ (contents l.to_write ++ (contents l.front.buffers ++ bytes_of l.front.cur))

abbrev pub IsLarge : FixedBuffer → Type 0
IsLarge b = b.size ≡ large_buffer_size

abbrev pub AreLarge : List FixedBuffer → Type 0
AreLarge [] = Unit {0}
AreLarge (b ∷ bs) = IsLarge b × AreLarge bs

-- A buffer in reserve is empty.
abbrev pub IsSpare : Option FixedBuffer → Type 0
IsSpare none = Unit {0}
IsSpare (some b) = IsLarge b × (b.data_ ≡ [])

abbrev pub CurLarge : Option FixedBuffer → Type 0
CurLarge none = Unit {0}
CurLarge (some b) = IsLarge b

-- Every buffer has the full size, and the spare ones are empty.
pub record Tidy (l : Logger) : Type 0 where
  pub current : CurLarge l.front.cur
  pub next : IsSpare l.front.next
  pub full : AreLarge l.front.buffers
  pub spare1 : IsSpare l.back1
  pub spare2 : IsSpare l.back2
  pub taken : AreLarge l.to_write

pub contents-append :
    (as' bs : List FixedBuffer) → contents (as' ++ bs) ≡ contents as' ++ contents bs
contents-append [] bs = refl
contents-append (a ∷ as') bs =
    ap (◌++◌ a.data_) (contents-append as' bs)
    ∙ sym (append_assoc a.data_ (contents as') (contents bs))

pub AreLarge-append :
    (as' bs : List FixedBuffer) → AreLarge as' → AreLarge bs → AreLarge (as' ++ bs)
AreLarge-append [] bs h k = k
AreLarge-append (a ∷ as') bs h k = (h.0, AreLarge-append as' bs h.1 k)

-- A text shorter than a buffer goes into one that has room.
append_room :
    (b : FixedBuffer) (text : Bytes)
    → IsLarge b
    → length text < available b
    → Stream.append b text ≡ record b { data_ = b.data_ ++ text }
unfolding Stream.append
append_room b text h k = rw room refl
  where
    room : (is_negative_int (length text) || ltb (length text % 2 ^ 32) (available b)) ≡ true
    room = ground (arith, h)

pub record Puts (f : Front) (cur : FixedBuffer) (text : Bytes) (g : Front) : Type 0 where
  pub cur_large : CurLarge g.cur
  pub next_spare : IsSpare g.next
  pub full_large : AreLarge g.buffers
  pub behind : contents g.buffers ++ bytes_of g.cur ≡ (contents f.buffers ++ cur.data_) ++ text

or_new-IsSpare : (o : Option FixedBuffer) → IsSpare o → IsLarge (or_new o) × ((or_new o).data_ ≡ [])
or_new-IsSpare none h = (refl, refl)
or_new-IsSpare (some b) h = h

pub append_to-Puts :
    (f : Front) (cur : FixedBuffer) (text : Bytes)
    → length text < large_buffer_size
    → IsLarge cur
    → IsSpare f.next
    → AreLarge f.buffers
    → Puts f cur text (append_to f cur text)
unfolding append_to
append_to-Puts f cur text small large spare full =
    elim (Bool-cases (ltb (length text) (available cur))) [
      | inl room ↦
          rw (room, append_room cur text large (ground arith))
            (record {
              cur_large = large;
              next_spare = spare;
              full_large = full;
              behind = sym (append_assoc (contents f.buffers) cur.data_ text);
            })
      | inr no_room ↦
          let (size, blank) = or_new-IsSpare f.next spare in
          let fits : length text < available (or_new f.next) = ground (arith, ap length blank) in
          rw (no_room, append_room (or_new f.next) text size fits)
            (record {
              cur_large = size;
              next_spare = tt;
              full_large = AreLarge-append f.buffers (cur ∷ []) full (large, tt);
              behind =
                  ap₂ ◌++◌
                    (contents-append f.buffers (cur ∷ [])
                      ∙ ap (◌++◌ (contents f.buffers)) (append-nil cur.data_))
                    (ap (λ xs. xs ++ text) blank);
            })
    ]

-- What is popped, and what is left, is large.
abbrev Pops : Option (List FixedBuffer × FixedBuffer) → Type 0
Pops none = Unit {0}
Pops (some (rest, last)) = AreLarge rest × IsLarge last

-- What is restored is empty as well.
abbrev pub Restores : Option (List FixedBuffer × FixedBuffer) → Type 0
Restores none = Unit {0}
Restores (some (rest, b)) = AreLarge rest × IsSpare (some b)

pop_back-Pops : (bs : List FixedBuffer) → AreLarge bs → Pops (pop_back bs)
unfolding pop_back
pop_back-Pops [] h = tt
pop_back-Pops (a ∷ []) h = (tt, h.0)
pop_back-Pops (a ∷ (b ∷ bs)) h = push (pop_back (b ∷ bs)) (pop_back-Pops (b ∷ bs) h.1)
  where
    push :
        (o : Option (List FixedBuffer × FixedBuffer))
        → Pops o
        → Pops (elim o [ none ↦ none | some (rest, last) ↦ some (a ∷ rest, last) ])
    push none k = tt
    push (some (rest, last)) k = ((h.0, k.0), k.1)

pub restore-Restores :
    (o : Option FixedBuffer) (bs : List FixedBuffer)
    → IsSpare o
    → AreLarge bs
    → Restores (restore o bs)
unfolding restore reset
restore-Restores (some b) bs h k = (k, h)
restore-Restores none bs h k = emptied (pop_back bs) (pop_back-Pops bs k)
  where
    emptied :
        (o : Option (List FixedBuffer × FixedBuffer))
        → Pops o
        → Restores (elim o [ none ↦ none | some (rest, last) ↦ some (rest, reset last) ])
    emptied none p = tt
    emptied (some (rest, last)) p = (p.0, (p.1, refl))

AreLarge-take : (n : ℕ) (bs : List FixedBuffer) → AreLarge bs → AreLarge (take n bs)
AreLarge-take zero bs h = tt
AreLarge-take (suc n) [] h = tt
AreLarge-take (suc n) (b ∷ bs) h = (h.0, AreLarge-take n bs h.1)

pub keep_two-AreLarge : (bs : List FixedBuffer) → AreLarge bs → AreLarge (keep_two bs)
unfolding keep_two
keep_two-AreLarge bs h = elim (Bool-cases (ltb 2 (length bs))) [
  | inl many ↦ rw many (AreLarge-take 2 bs h)
  | inr few ↦ rw few h
]

-- With at most 25 buffers none is thrown away.
pub thin_out_few : (bs : List FixedBuffer) → length bs ≤ 25 → thin_out bs ≡ bs
unfolding thin_out
thin_out_few bs h = rw few refl
  where
    few : ltb 25 (length bs) ≡ false
    few = ground arith
