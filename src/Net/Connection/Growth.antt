-- ===== src/Net/Connection/Growth.antt =====
-- net/connection.cpp: by how much Send and HandleWrite may enlarge the output buffer.
use sinetlib.Base.{
  ℕ, ◌+◌, ◌≤◌, ◌≡◌, refl, inl, inr, not, ◌&&◌, ltb, ◌==◌, Bool-cases, length, drop, length-drop,
  Bytes, arith,
}
use sinetlib.Net.Buffer.Contents.{append-Appends}
use sinetlib.Net.Buffer.Valid.{Fits}
use sinetlib.Net.Buffer
use sinetlib.Net.Buffer.{Buffer}
use sinetlib.Net.Connection.Stream.{Inv}
use sinetlib.Net.Connection.{
  Connection, WriteResult, taken, keep_rest, send, wrote_some, handle_write,
}
use sinetlib.Net.EventBase.{is_writing}

-- The input is as it was, and the output's vector is larger by n at most.
pub record Grows (c : Connection) (n : ℕ) (d : Connection) : Type 0 where
  pub input : d.input ≡ c.input
  pub output : length d.output.buffer ≤ length c.output.buffer + n

keep_rest-Grows :
    (c : Connection) (rest : Bytes)
    → Inv c
    → Fits c.output (length rest)
    → Grows c (length rest) (keep_rest c rest).0
unfolding keep_rest
keep_rest-Grows c rest v f =
    let a = append-Appends rest v.valid f in
    elim (Bool-cases (ltb 0 (length rest))) [
      | inr none_left ↦ rw none_left (record { input = refl; output = omega arith })
      | inl some_left ↦ rw some_left (elim (Bool-cases (is_writing c.events)) [
        | inl writing ↦ rw writing (record { input = refl; output = a.growth })
        | inr idle ↦ rw idle (record { input = refl; output = a.growth })
      ])
    ]

pub send-Grows :
    (c : Connection) (bytes : Bytes) (result : WriteResult)
    → Inv c
    → Fits c.output (length bytes)
    → Grows c (length bytes) (send c bytes result).0
unfolding send
send-Grows c bytes result v f =
    elim (Bool-cases (not (is_writing c.events) && Buffer.readable_size c.output == 0)) [
      | inr waits ↦ rw waits (keep_rest-Grows c bytes v f)
      | inl direct ↦ rw direct (
          let n = length-drop (taken result) bytes in
          let g =
            keep_rest-Grows _ (drop (taken result) bytes)
              (record { valid = v.valid; idle = v.idle; busy = v.busy }) (omega (arith, n)) in
          record { input = g.input; output = omega (arith, n, g.output) })
    ]

retrieve-buffer : (b : Buffer) (n : ℕ) → (Buffer.retrieve b n).buffer ≡ b.buffer
unfolding Buffer.retrieve Buffer.retrieve_all
retrieve-buffer b n = ground arith

pub handle_write-Grows :
    (c : Connection) (result : WriteResult) → Grows c 0 (handle_write c result).0
unfolding handle_write wrote_some
handle_write-Grows c result = record {
  input = ground arith;
  output = ground (arith, retrieve-buffer c.output (taken result));
}
