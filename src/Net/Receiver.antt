-- ===== src/Net/Receiver.antt =====
-- util/net/neter.h and util/net/session.cpp: the bytes that a session reads become protocols, which
-- its callback gets. How a protocol is read off a stream is a parameter.
pub mod Splitting
pub mod Reassembly
use live_streaming.Base.{
  ℕ, zero, suc, ◌+◌, Bool, true, false, ◌==◌, List, [], ◌∷◌, ◌++◌, length, Option, none, some,
  if◌then◌else◌,
}
use live_streaming.Result.{Result, ok, exhausted, ◌>>=◌}
use live_streaming.Net.Stream.{OctetsStream, Popped, new_stream, start, commit, revert}

-- One string after the other.
abbrev pub concat : List (List ℕ) → List ℕ
concat [] = []
concat (xs ∷ xss) = xs ++ concat xss

module _ {Protocol : Type 0} (callback : Protocol → Bool) where
  -- A round of the loop in GenerateProtocol::Generate: an exception ends it, from deserialize, or from
  -- the callback, which then is false. The protocols that the callback got, and the octets left.
  unfoldable pub generate_next :
      (OctetsStream → Result (List Protocol × List ℕ))
      → Popped Protocol
      → Result (List Protocol × List ℕ)
  unfolding commit revert
  generate_next again (none, os) = ok ([], (revert os).octets)
  generate_next again (some p, os) = elim (callback p) [
    | false ↦ ok (p ∷ [], (revert (commit os)).octets)
    | true ↦ again (commit os) >>= λ (ps, left). ok (p ∷ ps, left)
  ]

module _ {Protocol : Type 0} (deserialize : OctetsStream → Popped Protocol)
    (callback : Protocol → Bool) where
  unfoldable pub generate_from : ℕ → OctetsStream → Result (List Protocol × List ℕ)
  unfolding start generate_next
  generate_from zero os = exhausted
  generate_from (suc fuel) os = generate_next callback (generate_from fuel) (deserialize (start os))

  unfoldable pub generate : ℕ → List ℕ → Result (List Protocol × List ℕ)
  unfolding generate_from
  generate fuel xs = generate_from fuel (new_stream xs)

-- What read gives until it fails: byte strings of 1 to 1024 bytes, and an empty one where it is
-- interrupted. Then errno is EAGAIN, or not.
pub record Readings : Type 0 where
  pub reads : List (List ℕ)
  pub again : Bool

-- A session with the protocols that its callback got.
pub record Receiver (Protocol : Type 0) : Type 0 where
  pub read_data : List ℕ
  pub received : List Protocol
  pub closed : Bool

module _ {Protocol : Type 0} (deserialize : OctetsStream → Popped Protocol)
    (callback : Protocol → Bool) where
  -- ExchangerReadFunc; a protocol takes a byte at least, so there is fuel for one more than bytes.
  unfoldable pub exchanger_read : Readings → Receiver Protocol → Result (Receiver Protocol)
  unfolding generate
  exchanger_read r s =
      let read = concat r.reads in
      let read_data = s.read_data ++ read in
      if r.again
      then (if length read == 0 then ok (record s { read_data = read_data; closed = true }) else (do
        (ps, left) ← generate deserialize callback (length read_data + 1) read_data
        ok (record s { read_data = left; received = s.received ++ ps })))
      else ok (record s { read_data = read_data; closed = true })

  -- One event after the other, of a session that is not closed.
  unfoldable pub exchanger_reads : List Readings → Receiver Protocol → Result (Receiver Protocol)
  unfolding exchanger_read
  exchanger_reads [] s = ok s
  exchanger_reads (r ∷ rs) s = exchanger_read r s >>= exchanger_reads rs
