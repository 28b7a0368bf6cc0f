-- ===== src/Util.antt =====
-- base/util.h, base/util.cpp and base/timestamp.h: letter case, time, and how Accept takes an error.
-- The calls of the socket library are arguments of the parts that make them.
use sinetlib.Base.{ℕ, ◌+◌, ◌-◌, ◌*◌, Bool, true, false, ◌&&◌, leb, if◌then◌else◌, map, Bytes}

-- `toupper` and `tolower` in the C locale.
unfoldable pub to_upper_byte : ℕ → ℕ
to_upper_byte c = if leb b'a' c && leb c b'z' then c - 32 else c

unfoldable pub to_lower_byte : ℕ → ℕ
to_lower_byte c = if leb b'A' c && leb c b'Z' then c + 32 else c

unfoldable pub to_upper : Bytes → Bytes
to_upper text = map to_upper_byte text

unfoldable pub to_lower : Bytes → Bytes
to_lower text = map to_lower_byte text

-- The part of `struct timespec` that the code reads; a Timestamp is its count of nanoseconds.
pub record Timespec : Type 0 where
  pub sec : ℕ
  pub nsec : ℕ

unfoldable pub timespec_to_timestamp : Timespec → ℕ
timespec_to_timestamp ts = ts.sec * 1000000000 + ts.nsec

-- The values of `errno` that Accept tells apart.
pub data Errno : Type 0 where
  eagain econnaborted eintr eproto eperm emfile : Errno
  ebadf efault einval enfile enobufs enomem enotsock eopnotsupp : Errno
  unnamed : Errno

-- Accept: the descriptor or -1 behind a message, or a fatal message, which ends the program.
pub data Accepted : Type 0 where
  descriptor : ℕ → Accepted
  minus_one aborted : Accepted

abbrev pub is_expected : Errno → Bool
is_expected eagain = true
is_expected econnaborted = true
is_expected eintr = true
is_expected eproto = true
is_expected eperm = true
is_expected emfile = true
is_expected _ = false

-- What `accept4` returned: a descriptor, or an error.
pub data Accept4 : Type 0 where
  connected : ℕ → Accept4
  refused : Errno → Accept4

unfoldable pub accept : Accept4 → Accepted
accept (connected fd) = descriptor fd
accept (refused e) = if is_expected e then minus_one else aborted
