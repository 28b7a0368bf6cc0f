-- ===== src/Net/Connection/Stream.antt =====
-- net/connection.cpp: the bytes that a connection hands to its peer, and the write event.
use sinetlib.Base.{
  ℕ, ◌≡◌, refl, sym, ap, ◌∙◌, ◌≢◌, inl, inr, true, false, not, ◌&&◌, List, [], ◌∷◌, ◌++◌, ltb, ◌==◌,
  Bool-cases, length, take, drop, length-drop, take-append-drop, append_assoc, append-nil, Bytes,
  arith,
}
use sinetlib.Net.Buffer.Contents.{append-Appends, Appends, readable-retrieve}
use sinetlib.Net.Buffer.Valid.{IsValid, Fits, length-readable, retrieve-IsValid}
use sinetlib.Net.Buffer
use sinetlib.Net.Buffer.{Buffer}
use sinetlib.Net.Connection.{
  Connection, Effect, shutdown_write, WriteResult, taken, keep_rest, send, shutdown, wrote_some,
  handle_write,
}
use sinetlib.Net.EventBase.{is_writing, enable_write_events, disable_write_events}

-- All that the peer is to get: what has gone out, then what waits.
abbrev pub stream : Connection → Bytes
stream c = c.sent ++ Buffer.readable c.output

pub record Inv (c : Connection) : Type 0 where
  pub valid : IsValid c.output
  -- The write event is watched exactly while bytes wait.
  pub idle : is_writing c.events ≡ false → Buffer.readable c.output ≡ []
  pub busy : is_writing c.events ≡ true → Buffer.readable c.output ≢ []

append-ne-nil : (xs ys : Bytes) → ltb 0 (length ys) ≡ true → xs ++ ys ≢ []
append-ne-nil [] [] h = cc
append-ne-nil [] (y ∷ ys) h = λ e. cc
append-ne-nil (x ∷ xs) ys h = λ e. cc

nil_of_length : (ys : Bytes) → ltb 0 (length ys) ≡ false → ys ≡ []
nil_of_length [] h = refl
nil_of_length (y ∷ ys) h = absurd (ground arith)

record Sends (c : Connection) (bytes : Bytes) (d : Connection) : Type 0 where
  inv : Inv d
  bytes_behind : stream d ≡ stream c ++ bytes

keep_rest-Sends :
    (c : Connection) (rest : Bytes)
    → Inv c
    → Fits c.output (length rest)
    → Sends c rest (keep_rest c rest).0
unfolding keep_rest
keep_rest-Sends c rest v f = elim (Bool-cases (ltb 0 (length rest))) [
  | inr none_left ↦ rw none_left (record {
    inv = v;
    bytes_behind = rw (nil_of_length rest none_left) (sym (append-nil (stream c)));
  })
  | inl some_left ↦ rw some_left (elim (Bool-cases (is_writing c.events)) [
    | inl writing ↦ rw writing (record {
      inv = record {
        valid = put.valid;
        idle = λ h. cc;
        busy = λ h. rw put.bytes (append-ne-nil (Buffer.readable c.output) rest some_left);
      };
      bytes_behind = behind;
    })
    | inr not_writing ↦ rw not_writing (record {
      inv = record {
        valid = put.valid;
        idle = λ h. unfold is_writing enable_write_events in cc;
        busy = λ h. rw put.bytes (append-ne-nil (Buffer.readable c.output) rest some_left);
      };
      bytes_behind = behind;
    })
  ])
]
  where
    put : Appends c.output rest (Buffer.append c.output rest)
    put = append-Appends rest v.valid f

    behind :
        c.sent ++ Buffer.readable (Buffer.append c.output rest)
        ≡ (c.sent ++ Buffer.readable c.output) ++ rest
    behind = ap (◌++◌ c.sent) put.bytes ∙ sym (append_assoc c.sent (Buffer.readable c.output) rest)

-- Whether anything waits, told by the size.
size_zero : {b : Buffer} → IsValid b → (Buffer.readable_size b == 0) ≡ true → Buffer.readable b ≡ []
size_zero {b} v h = nil_of_length (Buffer.readable b) (ground (arith, length-readable v))

size_pos : {b : Buffer} → IsValid b → (Buffer.readable_size b == 0) ≡ false → Buffer.readable b ≢ []
size_pos {b} v h e =
    let z : length (Buffer.readable b) ≡ 0 = ap length e in
    absurd (ground (arith, length-readable v))

-- On a connection in order whose output vector stays below 2^64 bytes, Send keeps the order, and
-- the bytes for the peer (those that went out, then those that wait) grow by exactly the bytes
-- sent, whatever `write` takes at once and also when it fails.
pub send-stream :
    (c : Connection) (bytes : Bytes) (result : WriteResult)
    → Inv c
    → Fits c.output (length bytes)
    → Inv (send c bytes result).0 × (stream (send c bytes result).0 ≡ stream c ++ bytes)
unfolding send
send-stream c bytes result v f =
    elim (Bool-cases (not (is_writing c.events) && Buffer.readable_size c.output == 0)) [
      | inr waits ↦ rw waits (let s = keep_rest-Sends c bytes v f in (s.inv, s.bytes_behind))
      | inl direct ↦ rw direct (
          let s =
            keep_rest-Sends ready (drop (taken result) bytes) ready_inv
              (omega (arith, length-drop (taken result) bytes)) in
          (s.inv, s.bytes_behind ∙ joined direct))
    ]
  where
    ready : Connection
    ready = record c { sent = c.sent ++ take (taken result) bytes }

    ready_inv : Inv ready
    ready_inv = record { valid = v.valid; idle = v.idle; busy = v.busy }

    joined :
        (not (is_writing c.events) && Buffer.readable_size c.output == 0) ≡ true
        → stream ready ++ drop (taken result) bytes ≡ stream c ++ bytes
    joined h =
        let empty : Buffer.readable c.output ≡ [] = size_zero v.valid (ground arith) in
        rw (empty, append-nil, append-nil, append_assoc)
          (ap (◌++◌ c.sent) (take-append-drop (taken result) bytes))

wrote_some-stream :
    (c : Connection) (n : ℕ)
    → Inv c
    → is_writing c.events ≡ true
    → Inv (wrote_some c n).0 × (stream (wrote_some c n).0 ≡ stream c)
unfolding wrote_some
wrote_some-stream c n v w =
    elim (Bool-cases (Buffer.readable_size (Buffer.retrieve c.output n) == 0)) [
      | inl all ↦ rw all (
        record {
          valid = retrieve-IsValid v.valid n;
          idle = λ h. size_zero (retrieve-IsValid v.valid n) all;
          busy = λ h. unfold is_writing disable_write_events in cc;
        },
        same,
      )
      | inr some_left ↦ rw some_left (
        record {
          valid = retrieve-IsValid v.valid n;
          idle = λ h. cc;
          busy = λ h. size_pos (retrieve-IsValid v.valid n) some_left;
        },
        same,
      )
    ]
  where
    same :
        (c.sent ++ take n (Buffer.readable c.output))
          ++ Buffer.readable (Buffer.retrieve c.output n)
        ≡ stream c
    same =
        rw (readable-retrieve n v.valid, append_assoc)
          (ap (◌++◌ c.sent) (take-append-drop n (Buffer.readable c.output)))

-- HandleWrite keeps the connection in order, and moves bytes on without changing what the peer gets.
pub handle_write-stream :
    (c : Connection) (result : WriteResult)
    → Inv c
    → Inv (handle_write c result).0 × (stream (handle_write c result).0 ≡ stream c)
unfolding handle_write
handle_write-stream c result v = elim (Bool-cases (is_writing c.events)) [
  | inr idle ↦ rw idle (v, refl)
  | inl busy ↦ rw busy (elim (Bool-cases (ltb 0 (taken result))) [
    | inl some_out ↦ rw some_out (wrote_some-stream c (taken result) v busy)
    | inr none_out ↦ rw none_out (v, refl)
  ])
]

-- The calls of `write` that the loop makes after a Send.
unfoldable pub drain : Connection → List WriteResult → Connection × List Effect
drain c [] = (c, [])
drain c (r ∷ rs) =
    let (d, effects) = handle_write c r in let (e, more) = drain d rs in (e, effects ++ more)

abbrev pub Never : Effect → List Effect → Type 0
Never e [] = Unit {0}
Never e (x ∷ xs) = (x ≢ e) × Never e xs

Never-append : (e : Effect) (xs ys : List Effect) → Never e xs → Never e ys → Never e (xs ++ ys)
Never-append e [] ys a b = b
Never-append e (x ∷ xs) ys a b = (a.0, Never-append e xs ys a.1 b)

handle_write-Never : (c : Connection) (r : WriteResult) → Never shutdown_write (handle_write c r).1
unfolding handle_write wrote_some
handle_write-Never c r = ground arith

drain-Never : (c : Connection) (rs : List WriteResult) → Never shutdown_write (drain c rs).1
unfolding drain
drain-Never c [] = tt
drain-Never c (r ∷ rs) =
    Never-append shutdown_write (handle_write c r).1 _ (handle_write-Never c r)
      (drain-Never (handle_write c r).0 rs)

-- On a connection in order with room below 2^64 bytes: where a Send does not get all its bytes out
-- at once, the Shutdown behind it does nothing, and no later writing shuts the connection down,
-- even once all bytes are out.
pub shutdown_forgotten :
    (c : Connection) (bytes : Bytes) (result : WriteResult) (rs : List WriteResult)
    → Inv c
    → Fits c.output (length bytes)
    → Buffer.readable (send c bytes result).0.output ≢ []
    → let d = (send c bytes result).0 in (shutdown d ≡ []) × Never shutdown_write (drain d rs).1
unfolding shutdown
shutdown_forgotten c bytes result rs v f waits =
    elim (Bool-cases (is_writing (send c bytes result).0.events)) [
      | inl busy ↦ (rw busy, drain-Never (send c bytes result).0 rs)
      | inr idle ↦ absurd (waits ((send-stream c bytes result v f).0.idle idle))
    ]
