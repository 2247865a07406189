-- ===== src/Net/Stream.antt =====
-- util/net/octets.h, class OctetsStream: integers and byte strings that are appended to octets, and
-- read off at a cursor. A number stands for the value of an integer object of `size` bytes, whose
-- loops over the bytes of its memory are be_value and be_bytes.
pub mod RoundTrip
use live_streaming.Base.{
  ℕ, ◌+◌, ◌-◌, ◌%◌, ◌^◌, Bool, List, ◌++◌, length, take, drop, ltb, leb, ◌&&◌, if◌then◌else◌,
  Option, none, some,
}
use live_streaming.Stream.{be_value, be_bytes}

-- Both cursors are unsigned ints.
pub record OctetsStream : Type 0 where
  pub octets : List ℕ
  pub start_cursor : ℕ
  pub cursor : ℕ

-- What `>>` leaves, with its value, or none where it throws an OSException.
abbrev pub Popped {ℓ} : Type ℓ → Type ℓ
Popped A = Option A × OctetsStream

abbrev pub new_stream : List ℕ → OctetsStream
new_stream xs = record { octets = xs; start_cursor = 0; cursor = 0 }

unfoldable pub check_length : ℕ → OctetsStream → Bool
check_length size os = ltb os.cursor (length os.octets) && leb size (length os.octets - os.cursor)

abbrev pub ahead : ℕ → OctetsStream → OctetsStream
ahead size os = record os { cursor = (os.cursor + size) % 2 ^ 32 }

unfoldable pub pop_bytes : ℕ → OctetsStream → Popped ℕ
unfolding check_length
pop_bytes size os =
    if check_length size os
    then (some (be_value 0 (take size (drop os.cursor os.octets))), ahead size os)
    else (none, os)

unfoldable pub pop_front : ℕ → OctetsStream → Popped (List ℕ)
unfolding check_length
pop_front size os =
    if check_length size os
    then (some (take size (drop os.cursor os.octets)), ahead size os)
    else (none, os)

-- operator>> of Octets, whose own test is that of pop_front.
abbrev pub pop_sized : Popped ℕ → Popped (List ℕ)
pop_sized (none, os) = (none, os)
pop_sized (some size, os) = pop_front size os

unfoldable pub pop_octets : OctetsStream → Popped (List ℕ)
pop_octets os = pop_sized (pop_bytes 8 os)

unfoldable pub push_bytes : ℕ → ℕ → OctetsStream → OctetsStream
push_bytes size v os = record os { octets = os.octets ++ be_bytes size v }

unfoldable pub push_octets : List ℕ → OctetsStream → OctetsStream
push_octets xs os =
    let next = push_bytes 8 (length xs) os in record next { octets = next.octets ++ xs }

unfoldable pub start : OctetsStream → OctetsStream
start os = record os { start_cursor = os.cursor }

-- What was read since the start is erased.
unfoldable pub commit : OctetsStream → OctetsStream
commit os = record {
  octets = take os.start_cursor os.octets ++ drop os.cursor os.octets;
  start_cursor = 0;
  cursor = os.start_cursor;
}

unfoldable pub revert : OctetsStream → OctetsStream
revert os = record os { start_cursor = 0; cursor = os.start_cursor }
