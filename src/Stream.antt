-- ===== src/Stream.antt =====
-- include/protocol/Biosream.h: the classes bios, bostream and bistream over a memory buffer.
-- A stream holds the bytes of its buffer on both sides of the position `pcurr`, so that
-- `length()` and `avail()` are the lengths of the two sides. An exception carries the stream as it
-- is left; `none` there means that a seek moved the position out of the buffer.
-- An n-byte integer is its bit pattern, below 256 ^ n; `host` tells whether the machine that runs
-- the code stores integers with the most significant byte first. `long` has 8 bytes (LP64).
pub mod Words
pub mod Text
use echo_server_cpp.Prelude.{
  ℕ, ◌+◌, ◌-◌, ◌%◌, ◌^◌, Bool, false, not, ◌&&◌, ◌||◌, Option, none, some, List, [], ◌∷◌, ◌++◌,
  reverse, length, take, drop, ltb, leb, ◌==◌, if◌then◌else◌,
}
use echo_server_cpp.Prelude.Bytes.{bytes_le, word_le}
use echo_server_cpp.Prelude.Results.{Result, ok, throw, ◌>>=◌}
use echo_server_cpp.Prelude.Int.{ℤ, pos, negsuc}

-- The causes of biosexception, then those of agproexception (`none` is never thrown). Last, a crash,
-- which is no exception of the code: a copy from beyond the end of the buffer.
pub data Exception : Type 0 where
  end overflow string_too_long invalid_cmd range_error crash : Exception

pub record Stream : Type 0 where
  pub before : List ℕ
  pub after : List ℕ
  pub bigendian : Bool

abbrev pub Thrown : Type 0
Thrown = Exception × Option Stream

abbrev pub fail {ℓ} : {A : Type ℓ} → Exception → Stream → Result Thrown A
fail e s = throw (e, some s)

-- A stream of either class, not attached to a buffer.
unfoldable pub make : Bool → Stream
make bigendian = record { before = []; after = []; bigendian = bigendian }

unfoldable pub attach : List ℕ → Stream → Stream
attach buffer s = record s { before = []; after = buffer }

pub detach : Stream → Stream
detach s = record s { before = []; after = [] }

abbrev pub avail : Stream → ℕ
avail s = length s.after

abbrev pub used : Stream → ℕ
used s = length s.before

-- How the machine stores the `n`-byte integer `v`, and the integer that such bytes are.
unfoldable pub memory : Bool → ℕ → ℕ → List ℕ
memory host n v = if host then reverse (bytes_le n v) else bytes_le n v

unfoldable pub value : Bool → List ℕ → ℕ
value host bytes = if host then word_le (reverse bytes) else word_le bytes

first_byte : List ℕ → ℕ
first_byte [] = 0
first_byte (b ∷ bs) = b

unfoldable pub is_bigendian : Bool → Bool
unfolding memory bytes_le first_byte
is_bigendian host = first_byte (memory host 2 0x1122) == 0x11

unfoldable pub is_same_endian : Bool → Bool → Bool
unfolding is_bigendian
is_same_endian host bigendian =
    (bigendian && is_bigendian host) || (not bigendian && not (is_bigendian host))

-- `memcpy` to the position, which moves behind the copy.
unfoldable pub put : List ℕ → Stream → Stream
put p s = record s { before = s.before ++ p; after = drop (length p) s.after }

-- The bytes are copied one at a time.
unfoldable pub put_each : List ℕ → Stream → Stream
put_each [] s = s
put_each (b ∷ bs) s = put_each bs (put (b ∷ []) s)

unfoldable pub write : List ℕ → Stream → Result Thrown Stream
unfolding put
write p s = if ltb (avail s) (length p) then fail overflow s else ok (put p s)

unfoldable pub write_order : List ℕ → Stream → Result Thrown Stream
unfolding put
write_order p s = if ltb (avail s) (length p) then fail overflow s else ok (put p s)

unfoldable pub write_opposite : List ℕ → Stream → Result Thrown Stream
unfolding put_each put
write_opposite p s =
    if ltb (avail s) (length p) then fail overflow s else ok (put_each (reverse p) s)

unfoldable pub write_care_endian : Bool → List ℕ → Stream → Result Thrown Stream
unfolding is_same_endian write_order write_opposite
write_care_endian host p s =
    if is_same_endian host s.bigendian then write_order p s else write_opposite p s

-- `memcpy` from the position, which moves behind the copy.
unfoldable pub get : ℕ → Stream → List ℕ × Stream
get n s = (take n s.after, record s { before = s.before ++ take n s.after; after = drop n s.after })

-- `avail() < (long)len`: a length of 2 ^ 63 or more is negative as a `long`.
less_as_long : ℕ → ℕ → Bool
less_as_long n len = if leb (2 ^ 63) len then false else ltb n len

-- `n` is a `size_t`. A length that is negative as a `long` passes the test. The other functions have
-- the same cast, for lengths of what the program holds in memory, below 2 ^ 63.
unfoldable pub read : ℕ → Stream → Result Thrown (List ℕ × Stream)
unfolding less_as_long get
read n s =
    let len = n % 2 ^ 64 in
    if less_as_long (avail s) len
    then fail end s
    else if ltb (avail s) len
    then throw (crash, none)
    else ok (get len s)

unfoldable pub read_order : ℕ → Stream → Result Thrown (List ℕ × Stream)
unfolding get
read_order n s = if ltb (avail s) n then fail overflow s else ok (get n s)

-- The destination is filled from its last byte to its first.
unfoldable pub read_opposite : ℕ → Stream → Result Thrown (List ℕ × Stream)
unfolding get
read_opposite n s =
    if ltb (avail s) n then fail overflow s else ok (reverse (get n s).0, (get n s).1)

unfoldable pub read_care_endian : Bool → ℕ → Stream → Result Thrown (List ℕ × Stream)
unfolding is_same_endian read_order read_opposite
read_care_endian host n s =
    if is_same_endian host s.bigendian then read_order n s else read_opposite n s

-- The operators << and >> on char and bool, and on the integers of `n` bytes (2, 4 or 8).
unfoldable pub write_char : Bool → ℕ → Stream → Result Thrown Stream
unfolding memory write
write_char host c s = write (memory host 1 c) s

unfoldable pub write_int : Bool → ℕ → ℕ → Stream → Result Thrown Stream
unfolding memory write_care_endian
write_int host n v s = write_care_endian host (memory host n v) s

unfoldable pub read_char : Bool → Stream → Result Thrown (ℕ × Stream)
unfolding value read
read_char host s = do (bytes, rest) ← read 1 s; ok (value host bytes, rest)

unfoldable pub read_int : Bool → ℕ → Stream → Result Thrown (ℕ × Stream)
unfolding value read_care_endian
read_int host n s = do (bytes, rest) ← read_care_endian host n s; ok (value host bytes, rest)

-- A `char` byte as the signed number that `peek` returns.
unfoldable pub signed_char : ℕ → ℤ
signed_char b = if ltb b 128 then pos b else negsuc (255 - b)

unfoldable pub peek : Stream → Result Thrown ℤ
unfolding signed_char
peek s = elim s.after [ [] ↦ fail end s | b ∷ bs ↦ ok (signed_char b) ]

pub data SeekDir : Type 0 where
  beg cur end : SeekDir

-- The position, counted from the base, that a seek aims at; `none` lies before the base.
shift : ℕ → ℤ → Option ℕ
shift n (pos k) = some (n + k)
shift n (negsuc k) = if ltb k n then some (n - (k + 1)) else none

origin : SeekDir → Stream → ℕ
origin beg s = 0
origin cur s = used s
origin SeekDir.end s = used s + avail s

move_to : Exception → Stream → Option ℕ → Result Thrown Stream
move_to e s none = throw (e, none)
move_to e s (some p) =
    let whole = s.before ++ s.after in
    if leb p (used s + avail s)
    then ok (record s { before = take p whole; after = drop p whole })
    else throw (e, none)

unfoldable pub seekp : ℤ → SeekDir → Stream → Result Thrown Stream
unfolding shift origin move_to
seekp offset dir s = move_to overflow s (shift (origin dir s) offset)

unfoldable pub seekg : ℤ → SeekDir → Stream → Result Thrown Stream
unfolding shift origin move_to
seekg offset dir s = move_to Exception.end s (shift (origin dir s) offset)

abbrev pub long_size : ℕ
long_size = 8

write_length : Bool → ℕ → Stream → Result Thrown Stream
write_length host slen s =
    if ltb slen 255
    then write_char host (slen % 256) s
    else if ltb slen 0xfffe
    then (do s₁ ← write_char host 0xff s; write_int host 2 (slen % 2 ^ 16) s₁)
    else (do
      s₁ ← write_char host 0xff s
      s₂ ← write_int host 2 0xffff s₁
      write_int host long_size slen s₂)

-- The operator << on a C string, whose bytes before the terminator are `text`.
unfoldable pub write_text : Bool → List ℕ → Stream → Result Thrown Stream
unfolding write_length
write_text host text s = do s' ← write_length host (length text) s; write text s'

-- The operator >> on a `char*`: the bytes that it stores, with no terminator.
unfoldable pub read_text : Bool → Stream → Result Thrown (List ℕ × Stream)
read_text host s = do
  (blen, s₁) ← read_char host s
  if ltb blen 0xff then read blen s₁ else (do
    (wlen, s₂) ← read_int host 2 s₁
    if ltb wlen 0xfffe
        then read wlen s₂
        else (do (dwlen, s₃) ← read_int host long_size s₂; read dwlen s₃))

-- A text that does not fit the destination: seek back over the length field, and throw.
unread : ℕ → Stream → Result Thrown (List ℕ × Stream)
unfolding seekg
unread n s = do s' ← seekg (negsuc (n - 1)) cur s; fail range_error s'

unfoldable pub readcstring : Bool → ℕ → Stream → Result Thrown (List ℕ × Stream)
unfolding unread
readcstring host ssize s = if ssize == 0 then fail range_error s else (do
  (blen, s₁) ← read_char host s
  if ltb blen 0xff then (if leb ssize blen then unread 1 s₁ else read blen s₁) else (do
    (wlen, s₂) ← read_int host 2 s₁
    if ltb wlen 0xfffe then (if leb ssize wlen then unread 2 s₂ else read wlen s₂) else (do
      (dwlen, s₃) ← read_int host long_size s₂
      if leb ssize dwlen then unread long_size s₃ else read dwlen s₃)))
