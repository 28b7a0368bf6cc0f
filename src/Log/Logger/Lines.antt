-- ===== src/Log/Logger/Lines.antt =====
-- log/logger.cpp: the line of a logged statement.
use sinetlib.Base.Int.{pos}
use sinetlib.Base.{
  ◌+◌, ◌^◌, ◌≤◌, ◌<◌, ◌≡◌, ◌⊎◌, refl, sym, ap, ◌∙◌, inl, inr, true, List, [], ◌∷◌, ◌++◌,
  append_assoc, append-nil, length, length-append, Bytes, codes, arith,
}
use sinetlib.Log.Logger.{
  LogLevel, loglevel_name, is_logged, Place, debug, info, warn, error, fatal, output, text,
  new_logger, end_effects, end_logger, log,
}
use sinetlib.Log.Stream.Bounds.{AreSmall, text_of, Puts, put-Puts}
use sinetlib.Log.Stream.{
  FixedBuffer, available, small_buffer_size, new_buffer, Value, char, int, convert, put, put_all,
}

-- The texts of values, one behind the other.
abbrev pub texts_of : List Value → Bytes
texts_of [] = []
texts_of (v ∷ vs) = text_of v ++ texts_of vs

-- All values go in whole where there is room for them and 32 bytes more.
put_all-whole :
    (vs : List Value) (b : FixedBuffer)
    → AreSmall vs
    → length b.data_ + length (texts_of vs) + 32 < b.size
    → ((put_all b vs).data_ ≡ b.data_ ++ texts_of vs) × ((put_all b vs).size ≡ b.size)
unfolding put_all
put_all-whole [] b s h = (sym (append-nil b.data_), refl)
put_all-whole (v ∷ vs) b s h = elim p.whole_or_none [
  | inl whole ↦
      let rest = put_all-whole vs (put b v) s.1 (
        omega (
          arith,
          ap length whole,
          length-append b.data_ (text_of v),
          length-append (text_of v) (texts_of vs),
          p.size,
        )) in
      (
        rest.0 ∙ ap (λ t. t ++ texts_of vs) whole ∙ append_assoc b.data_ (text_of v) (texts_of vs),
        rest.1 ∙ p.size,
      )
  | inr left ↦ absurd (no_room left.1)
]
  where
    p : Puts b (text_of v) (put b v)
    p = put-Puts b v s.0 (omega arith)

    no_room : ¬ ((available b < 32) ⊎ (available b ≤ length (text_of v)))
    no_room (inl few) = omega arith
    no_room (inr few) = omega (arith, length-append (text_of v) (texts_of vs))

put_all-append :
    (vs ws : List Value) (b : FixedBuffer) → put_all (put_all b vs) ws ≡ put_all b (vs ++ ws)
unfolding put_all
put_all-append [] ws b = refl
put_all-append (v ∷ vs) ws b = put_all-append vs ws (put b v)

texts_of-append : (vs ws : List Value) → texts_of (vs ++ ws) ≡ texts_of vs ++ texts_of ws
texts_of-append [] ws = refl
texts_of-append (v ∷ vs) ws =
    ap (◌++◌ (text_of v)) (texts_of-append vs ws)
    ∙ sym (append_assoc (text_of v) (texts_of vs) (texts_of ws))

AreSmall-append : (vs ws : List Value) → AreSmall vs → AreSmall ws → AreSmall (vs ++ ws)
AreSmall-append [] ws h k = k
AreSmall-append (v ∷ vs) ws h k = (h.0, AreSmall-append vs ws h.1 k)

-- What stands in front of the values, and behind them.
abbrev pub front : LogLevel → Place → Bytes
front level place = loglevel_name level ++ (place.func_name ++ codes "():")

abbrev pub tail : Place → Bytes
tail place = codes " - " ++ (place.file_name ++ b':' ∷ (convert (pos place.line) ++ 10 ∷ []))

abbrev head_values : LogLevel → Place → List Value
head_values level place =
    text (loglevel_name level) ∷ text place.func_name ∷ text (codes "():") ∷ []

abbrev tail_values : Place → List Value
tail_values place =
    text (codes " - ") ∷ text place.file_name ∷ char b':' ∷ int (pos place.line) ∷ char 10 ∷ []

level-small : (level : LogLevel) → length (loglevel_name level) < 2 ^ 31
level-small debug = omega arith
level-small info = omega arith
level-small warn = omega arith
level-small error = omega arith
level-small fatal = omega arith

-- A statement whose level is logged, of values in the ranges of their types, from a line below 2^31,
-- and whose whole line leaves more than 32 bytes of the stream's buffer: its one output is the
-- level's name, the function and its brackets, the values in order, and the file and line up to the
-- line feed, with nothing left out; and only behind it a fatal statement flushes and aborts.
pub log-line :
    (global level : LogLevel) (place : Place) (values : List Value)
    → is_logged global level ≡ true
    → AreSmall values
    → place.line < 2 ^ 31
    → length (front level place ++ (texts_of values ++ tail place)) + 32 < small_buffer_size
    → log global level place values
      ≡ output (front level place ++ (texts_of values ++ tail place)) ∷ end_effects level
unfolding log
log-line global level place values on small line h =
    rw (on, log)
      (unfold end_logger new_logger in ap (λ bytes. output bytes ∷ end_effects level) whole)
  where
    all : List Value
    all = head_values level place ++ (values ++ tail_values place)

    all_text : texts_of all ≡ front level place ++ (texts_of values ++ tail place)
    all_text =
        texts_of-append (head_values level place) (values ++ tail_values place)
        ∙ ap (◌++◌ (front level place)) (texts_of-append values (tail_values place))

    rest_le : length (texts_of values ++ tail place) ≤ 1024
    rest_le = omega (arith, h, length-append (front level place) (texts_of values ++ tail place))

    file_small : length place.file_name < 2 ^ 31
    file_small = omega (
      arith,
      rest_le,
      length-append (texts_of values) (tail place),
      length-append place.file_name (b':' ∷ (convert (pos place.line) ++ 10 ∷ [])),
    )

    func_small : length place.func_name < 2 ^ 31
    func_small = omega (
      arith,
      h,
      length-append (front level place) (texts_of values ++ tail place),
      length-append (loglevel_name level) (place.func_name ++ codes "():"),
      length-append place.func_name (codes "():"),
    )

    all_small : AreSmall all
    all_small = (
      level-small level,
      (
        func_small,
        (
          omega arith,
          AreSmall-append values (tail_values place) small
              (omega arith, (file_small, (tt, (omega arith, (tt, tt))))),
        ),
      ),
    )

    whole :
        (put_all
          (put_all (put_all (new_buffer small_buffer_size) (head_values level place)) values)
          (tail_values place)).data_
        ≡ front level place ++ (texts_of values ++ tail place)
    whole =
        rw
          (
            put_all-append (head_values level place) values (new_buffer small_buffer_size),
            put_all-append (head_values level place ++ values) (tail_values place)
                (new_buffer small_buffer_size),
          )
          ((put_all-whole all (new_buffer small_buffer_size) all_small
              (omega (arith, h, ap length all_text))).0
            ∙ all_text)
