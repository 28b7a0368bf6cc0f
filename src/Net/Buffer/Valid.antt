-- ===== src/Net/Buffer/Valid.antt =====
-- net/iobuffer.h: the representation invariant of IOBuffer.
use sinetlib.Base.{
  ℕ, ◌+◌, ◌-◌, ◌≤◌, ◌<◌, ◌≡◌, refl, ap, ◌∙◌, inl, inr, false, ◌++◌, length, length-copy_to, slice,
  copy_to, length-resize, length-slice, slice-copy_to, slice-resize, slice_none, ltb, ltb→lt, tests,
  resize, ◌%◌, ◌^◌, Bool-cases, arith,
}
use sinetlib.Net.Buffer.{
  Buffer, size_mod, prepend_size, add_size, new, readable, readable_size, writable_size,
  prepended_size, retrieve, retrieve_all, make_space, ensure_writable,
}

pub record IsValid (b : Buffer) : Type 0 where
  pub ordered : b.read_index ≤ b.write_index
  pub inside : b.write_index ≤ length b.buffer
  pub room : prepend_size ≤ length b.buffer
  pub no_wrap : length b.buffer + 16 < size_mod

-- So many more bytes can be asked for before a `size_t` wraps.
abbrev pub Fits : Buffer → ℕ → Type 0
Fits b n = length b.buffer + n + 16 < size_mod

pub new-IsValid : (n : ℕ) → IsValid (new n)
unfolding new
new-IsValid n = record {
  ordered = omega arith;
  inside = omega arith;
  room = omega arith;
  no_wrap = omega arith;
}

module _ {b : Buffer} (v : IsValid b) where
  pub readable_size_lem : readable_size b ≡ b.write_index - b.read_index
  unfolding readable_size
  readable_size_lem = omega arith

  pub writable_size_lem : writable_size b ≡ length b.buffer - b.write_index
  unfolding writable_size
  writable_size_lem = omega arith

  pub length-readable : length (readable b) ≡ readable_size b
  unfolding readable
  length-readable =
      omega (arith, readable_size_lem, length-slice b.buffer b.read_index b.write_index v.inside)

  pub retrieve-IsValid : (n : ℕ) → IsValid (retrieve b n)
  unfolding retrieve readable_size add_size retrieve_all
  retrieve-IsValid n = ground arith

  -- The same as a copy: a range that starts at the copied bytes holds just those.
  slice_moved :
      (n : ℕ)
      → n ≡ b.write_index - b.read_index
      → prepend_size < b.read_index
      → slice (copy_to b.buffer prepend_size (readable b)) prepend_size (prepend_size + n)
        ≡ readable b
  slice_moved n e h =
      slice-copy_to b.buffer prepend_size prepend_size (prepend_size + n) (readable b) (omega arith)
        (omega (arith, length-readable, readable_size_lem)) (omega arith)
      ∙ ap (λ xs. xs ++ readable b) (slice_none b.buffer prepend_size)

-- What asking for room for n bytes leaves: the room, the same readable bytes, and the invariant.
pub record HasRoom (b : Buffer) (n : ℕ) (c : Buffer) : Type 0 where
  pub valid : IsValid c
  pub free : c.write_index + n ≤ length c.buffer
  pub growth : length c.buffer ≤ length b.buffer + n
  pub same : readable c ≡ readable b

module _ {b : Buffer} (v : IsValid b) (n : ℕ) (f : Fits b n) where
  -- Where too little is writable and MakeSpace does not enlarge the vector, the readable bytes
  -- start behind the place that they are moved to, and moving them leaves the room asked for.
  pub moves_left :
      writable_size b < n
      → ltb (add_size (writable_size b) (prepended_size b)) (add_size n prepend_size) ≡ false
      → (prepend_size < b.read_index) × (n + prepend_size ≤ writable_size b + b.read_index)
  unfolding add_size writable_size prepended_size
  moves_left h move = omega tests

  grown-HasRoom :
      writable_size b < n
      → HasRoom b n (record b { buffer = resize (add_size b.write_index n) 0 b.buffer })
  unfolding add_size readable
  grown-HasRoom h = record {
    valid = record {
      ordered = v.ordered;
      inside = omega (arith, len, writable_size_lem v);
      room = omega (arith, len, writable_size_lem v, v.room);
      no_wrap = omega (arith, len, writable_size_lem v);
    };
    free = omega (arith, len, writable_size_lem v);
    growth = omega (arith, len, writable_size_lem v);
    same =
        slice-resize (add_size b.write_index n) 0 b.buffer b.read_index b.write_index v.inside
          (omega (arith, writable_size_lem v));
  }
    where
      len : length (resize (add_size b.write_index n) 0 b.buffer) ≡ add_size b.write_index n
      len = length-resize (add_size b.write_index n) 0 b.buffer

  moved-HasRoom :
      prepend_size < b.read_index
      → n + prepend_size ≤ writable_size b + b.read_index
      → HasRoom b n (record {
        buffer = copy_to b.buffer prepend_size (readable b);
        read_index = prepend_size;
        write_index = add_size prepend_size (readable_size b);
      })
  unfolding add_size
  moved-HasRoom h k = record {
    valid = record {
      ordered = omega (arith, end);
      inside = omega (arith, len, end, readable_size_lem v);
      room = omega (arith, len, v.room);
      no_wrap = omega (arith, len, v.no_wrap);
    };
    free = omega (arith, len, end, writable_size_lem v, readable_size_lem v);
    growth = omega (arith, len);
    same = rw end (unfold readable in slice_moved v (readable_size b) (readable_size_lem v) h);
  }
    where
      len : length (copy_to b.buffer prepend_size (readable b)) ≡ length b.buffer
      len = length-copy_to b.buffer prepend_size (readable b)

      end : (prepend_size + readable_size b) % 2 ^ 64 ≡ prepend_size + readable_size b
      end = omega (arith, readable_size_lem v)

  pub make_space-HasRoom : writable_size b < n → HasRoom b n (make_space b n)
  unfolding make_space
  make_space-HasRoom h =
      elim (Bool-cases
        (ltb (add_size (writable_size b) (prepended_size b)) (add_size n prepend_size))) [
          | inl grow ↦ rw grow (grown-HasRoom h)
          | inr move ↦ rw move (moved-HasRoom (moves_left h move).0 (moves_left h move).1)
        ]

  pub ensure_writable-HasRoom : HasRoom b n (ensure_writable b n)
  unfolding ensure_writable
  ensure_writable-HasRoom = elim (Bool-cases (ltb (writable_size b) n)) [
    | inl less ↦ rw less (make_space-HasRoom (ltb→lt _ _ less))
    | inr enough ↦ rw enough (record {
      valid = v;
      free = omega (tests, writable_size_lem v);
      growth = omega arith;
      same = refl;
    })
  ]
