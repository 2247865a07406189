-- ===== src/Stream.antt =====
-- server/stream.h and server/stream.cc: ByteStream, a cursor over a byte vector that the caller
-- owns. A number stands for the value of an integer object, so that the loops over the bytes of
-- its memory, which depend on the host's byte order, are be_value and be_bytes.
pub mod Codec
pub mod Shrinking
use live_streaming.Base.{
  ℕ, ◌+◌, ◌-◌, ◌*◌, ◌/◌, ◌%◌, ◌^◌, zero, suc, Bool, List, [], ◌∷◌, ◌++◌, length, take, drop, ltb,
  ◌==◌, if◌then◌else◌, resize, reverse,
}
use live_streaming.Result.{Result, ok, throws}
use live_streaming.Result

-- The vector is a reference in the program; it is written back by whoever opened the stream.
pub record ByteStream : Type 0 where
  pub bytes : List ℕ
  pub head : ℕ
  pub tail : ℕ

-- An operation on a stream that may throw, and its value.
abbrev pub Stream {ℓ} : Type ℓ → Type ℓ
Stream A = ByteStream → Result (A × ByteStream)

unfoldable pub pure {ℓ} : {A : Type ℓ} → A → Stream A
pure a bs = ok (a, bs)

infixl 5 ◌>>=◌ ◌>>◌
unfoldable pub ◌>>=◌ {ℓ κ} : {A : Type ℓ} {B : Type κ} → Stream A → (A → Stream B) → Stream B
p >>= f = λ bs. Result.◌>>=◌ (p bs) (λ (a, bs'). f a bs')

abbrev pub ◌>>◌ {ℓ κ} : {A : Type ℓ} {B : Type κ} → Stream A → Stream B → Stream B
p >> q = p >>= λ _. q

-- ByteStream(bytes).
unfoldable pub open_stream : List ℕ → ByteStream
open_stream bytes = record { bytes = bytes; head = 0; tail = length bytes }

unfoldable pub remain : ByteStream → ℕ
remain bs = length bs.bytes - bs.head

-- Big-endian: the first byte of the stream is the most significant.
unfoldable pub be_value : ℕ → List ℕ → ℕ
be_value acc [] = acc
be_value acc (b ∷ bs) = be_value (acc * 256 + b) bs

-- The low `size` bytes of a number, the most significant first.
unfoldable pub be_bytes : ℕ → ℕ → List ℕ
be_bytes zero v = []
be_bytes (suc size) v = v / 256 ^ size % 256 ∷ be_bytes size v

-- pop_bytes: the low `size` bytes of an object of value `old` are overwritten.
unfoldable pub pop_bytes : ℕ → ℕ → Stream ℕ
unfolding be_value
pop_bytes size old bs =
    if ltb (length bs.bytes - bs.head) size
    then throws
    else ok (
      old / 256 ^ size * 256 ^ size + be_value 0 (take size (drop bs.head bs.bytes)),
      record bs { head = bs.head + size },
    )

unfoldable pub push_bytes : ℕ → ℕ → Stream (Unit {0})
unfolding be_bytes
push_bytes size v bs = ok (tt, record bs { bytes = bs.bytes ++ be_bytes size v })

-- operator>>(RawPtrWrapper&&), and so PopUint8Vec and PopString.
unfoldable pub pop_raw : ℕ → Stream (List ℕ)
pop_raw size bs =
    if ltb (length bs.bytes - bs.head) size
    then throws
    else ok (take size (drop bs.head bs.bytes), record bs { head = bs.head + size })

-- operator<<(const ConstRawPtrWrapper&).
unfoldable pub push_raw : List ℕ → Stream (Unit {0})
push_raw raw bs = ok (tt, record bs { bytes = bs.bytes ++ raw })

-- Pop<T>() of a T of `size` bytes.
unfoldable pub pop : ℕ → Stream ℕ
unfolding pop_bytes
pop size = pop_bytes size 0

-- The bytes before the head go; the memcpy is taken as a move.
unfoldable pub commit : ByteStream → ByteStream
commit bs =
    let rest = drop bs.head bs.bytes in record { bytes = rest; head = 0; tail = length rest }

-- The vector is cut (or filled up with zeros) to its length at the start or at the last commit.
unfoldable pub revert : ByteStream → ByteStream
revert bs =
    let kept = if length bs.bytes == bs.tail then bs.bytes else resize 0 bs.tail bs.bytes in
    record { bytes = kept; head = 0; tail = length kept }

unfoldable pub discard : ℕ → Stream (Unit {0})
discard count bs = ok (
  tt,
  record bs {
    head = if ltb (length bs.bytes - bs.head) count then length bs.bytes else bs.head + count;
  },
)

unfoldable pub commits : Stream (Unit {0})
unfolding commit
commits bs = ok (tt, commit bs)

-- The destructor.
unfoldable pub close_stream : ByteStream → List ℕ
unfolding revert
close_stream bs = (revert bs).bytes
