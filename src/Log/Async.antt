-- ===== src/Log/Async.antt =====
-- log/asynclogger.h and log/asynclogger.cpp: class AsyncLogger. Producers and the log thread take
-- turns: a section under the mutex is one step, and so is what the log thread does without it. A
-- shared_ptr is its buffer, or `none` where it is empty; each buffer has one owner at a time. What
-- LogFile is given is a list of bytes, oldest first.
pub mod Safe
pub mod Tidy
pub mod Keeps
pub mod Order
use sinetlib.Base.{
  ℕ, ◌+◌, Bool, true, false, Option, none, some, List, [], ◌∷◌, ◌++◌, ltb, if◌then◌else◌, length,
  take, Bytes,
}
use sinetlib.Log.Stream.{FixedBuffer, new_buffer, available, large_buffer_size, reset}
use sinetlib.Log.Stream

-- cur_buffer_, next_buffer_ and buffers_, which the mutex protects.
pub record Front : Type 0 where
  pub cur : Option FixedBuffer
  pub next : Option FixedBuffer
  pub buffers : List FixedBuffer

-- Where the log thread is: at the test of its loop, in front of or inside the wait for buffers, with
-- the buffers that it took, or at the end.
pub data Phase : Type 0 where
  testing waiting writing ended : Phase

-- The variables of ThreadFunc, and what it has written.
pub record Logger : Type 0 where
  pub front : Front
  pub is_running : Bool
  pub phase : Phase
  pub back1 : Option FixedBuffer
  pub back2 : Option FixedBuffer
  pub to_write : List FixedBuffer
  pub written : Bytes

abbrev pub fresh : FixedBuffer
fresh = new_buffer large_buffer_size

-- The constructor, Start, and ThreadFunc up to its loop.
abbrev pub started : Logger
started = record {
  front = record { cur = some fresh; next = some fresh; buffers = [] };
  is_running = true;
  phase = testing;
  back1 = some fresh;
  back2 = some fresh;
  to_write = [];
  written = [];
}

abbrev pub or_new : Option FixedBuffer → FixedBuffer
or_new none = fresh
or_new (some b) = b

-- Append, where cur_buffer_ is not empty.
unfoldable pub append_to : Front → FixedBuffer → Bytes → Front
append_to f cur text =
    if ltb (length text) (available cur)
    then record f { cur = some (Stream.append cur text) }
    else record f {
      buffers = f.buffers ++ cur ∷ [];
      cur = some (Stream.append (or_new f.next) text);
      next = none;
    }

-- `none` is a read through an empty pointer, or a `back()` of an empty vector.
unfoldable pub append : Front → Bytes → Option Front
append f text = elim f.cur [ none ↦ none | some cur ↦ some (append_to f cur text) ]

abbrev pub or_else : Option FixedBuffer → Option FixedBuffer → Option FixedBuffer
or_else none b = b
or_else (some a) b = some a

-- What is left of back_buffer_2 once next_buffer_ has been filled up.
abbrev pub unless : Option FixedBuffer → Option FixedBuffer → Option FixedBuffer
unless none b = none
unless (some a) b = b

-- The section of ThreadFunc under the mutex, behind the wait: the wait ends when it likes, by a
-- notification or by its time limit, and Stop may come before that.
unfoldable pub take_buffers : Logger → FixedBuffer → Logger
take_buffers l cur = record l {
  front = record { cur = l.back1; next = or_else l.front.next l.back2; buffers = l.to_write };
  phase = writing;
  back1 = none;
  back2 = unless l.front.next l.back2;
  to_write = l.front.buffers ++ cur ∷ [];
}

-- More than 25 buffers: all but the first two are thrown away.
unfoldable pub thin_out : List FixedBuffer → List FixedBuffer
thin_out bs = if ltb 25 (length bs) then take 2 bs else bs

-- `resize(2)` of a longer vector.
unfoldable pub keep_two : List FixedBuffer → List FixedBuffer
keep_two bs = if ltb 2 (length bs) then take 2 bs else bs

abbrev pub contents : List FixedBuffer → Bytes
contents [] = []
contents (b ∷ bs) = b.data_ ++ contents bs

-- `back()` and `pop_back()`.
unfoldable pub pop_back : List FixedBuffer → Option (List FixedBuffer × FixedBuffer)
pop_back [] = none
pop_back (b ∷ []) = some ([], b)
pop_back (b ∷ (c ∷ bs)) = elim (pop_back (c ∷ bs)) [
  | none ↦ none
  | some (rest, last) ↦ some (b ∷ rest, last)
]

-- An empty back buffer is filled up from the buffers written.
unfoldable pub restore :
    Option FixedBuffer → List FixedBuffer → Option (List FixedBuffer × FixedBuffer)
unfolding reset
restore (some b) bs = some (bs, b)
restore none bs = elim (pop_back bs) [ none ↦ none | some (rest, last) ↦ some (rest, reset last) ]

-- The log thread back at the test of its loop.
abbrev pub back_at_test : Logger → Bytes → FixedBuffer → FixedBuffer → Logger
back_at_test l text b1 b2 = record l {
  phase = testing;
  back1 = some b1;
  back2 = some b2;
  to_write = [];
  written = l.written ++ text;
}

-- The rest of the loop's body.
unfoldable pub write_buffers : Logger → Option Logger
write_buffers l =
    let bs = thin_out l.to_write in
    elim (restore l.back1 (keep_two bs)) [
      | none ↦ none
      | some (kept, b1) ↦ elim (restore l.back2 kept) [
        | none ↦ none
        | some (_, b2) ↦ some (back_at_test l (contents bs) b1 b2)
      ]
    ]

-- What the threads can do next.
pub data Action : Type 0 where
  appends : Bytes → Action
  tests takes writes stops : Action

-- An action is possible or not; `fault` is undefined behaviour.
pub data Outcome : Type 0 where
  moved : Logger → Outcome
  disabled fault : Outcome

abbrev pub or_fault : Option Logger → Outcome
or_fault none = fault
or_fault (some l) = moved l

unfoldable pub log_thread : Phase → Bool → Action → Logger → Outcome
log_thread testing true tests l = moved (record l { phase = waiting })
log_thread testing false tests l = moved (record l { phase = ended })
log_thread waiting running takes l = elim l.front.cur [
  | none ↦ fault
  | some cur ↦ moved (take_buffers l cur)
]
log_thread writing running writes l = or_fault (write_buffers l)
log_thread _ running a l = disabled

unfoldable pub step : Logger → Action → Outcome
step l (appends text) = elim (append l.front text) [
  | none ↦ fault
  | some f ↦ moved (record l { front = f })
]
step l stops = moved (record l { is_running = false })
step l tests = log_thread l.phase l.is_running tests l
step l takes = log_thread l.phase l.is_running takes l
step l writes = log_thread l.phase l.is_running writes l

-- The actions that are possible, one after the other.
unfoldable pub run : Logger → List Action → Outcome
run l [] = moved l
run l (a ∷ as') = elim (step l a) [ moved m ↦ run m as' | disabled ↦ disabled | fault ↦ fault ]
