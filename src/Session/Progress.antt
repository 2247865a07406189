-- ===== src/Session/Progress.antt =====
-- The chunk reader (server/rtmp.cc, OnReadInHandeShakeDoneState) on bytes that may be anything.
use live_streaming.Base.{
  ℕ, ◌+◌, ◌≤◌, ◌<◌, ◌≡◌, refl, Bool-cases, ◌⊎◌, inl, inr, ltb, length, List, Option, none, some,
  arith, ◌==◌, length-drop,
}
use live_streaming.Result
use live_streaming.Result.{Result, ok, throws}
use live_streaming.Stream.{ByteStream, Stream, ◌>>=◌, pure, remain, open_stream, commit}
use live_streaming.Stream.Shrinking.{
  Ends, Shrinks, returned, thrown, pure-Ends, Ends-if, bind-Ends, Ends-weaken, pop-Ends,
  pop_bytes-Ends, pop_raw-Ends,
}
use live_streaming.Chunk.{
  ChunkHeader, ChunkCommon, new_header, extended_mark, deserialize_id, deserialize_basic,
  deserialize_common, deserialize_extension, deserialize_header,
}
use live_streaming.Session.{RtmpSession}
use live_streaming.Session.Chunks.{
  Taken, complete_header, take_chunk, read_chunk, message_timestamp, expected_length,
  get_message_id,
}

deserialize_id-Ends : (first : ℕ) (bs : ByteStream) → Ends 0 (deserialize_id first) bs
unfolding deserialize_id
deserialize_id-Ends first bs =
    Ends-if _ (Ends-weaken (omega arith) (bind-Ends 0 _ (pop-Ends 1 bs) λ b bs' _. pure-Ends _ bs'))
      (Ends-if _
        (Ends-weaken (omega arith) (bind-Ends 0 _ (pop-Ends 2 bs) λ b bs' _. pure-Ends _ bs'))
        (pure-Ends _ bs))

deserialize_common-Ends :
    (format : ℕ) (c : ChunkCommon) (bs : ByteStream) → Ends 0 (deserialize_common format c) bs
unfolding deserialize_common
deserialize_common-Ends format c bs =
    Ends-if (format == 0)
      (Ends-weaken (omega arith) (
        bind-Ends 8 _ (pop_bytes-Ends 3 _ bs) λ a b1 _.
          bind-Ends 5 _ (pop_bytes-Ends 3 _ b1) λ b b2 _.
            bind-Ends 4 _ (pop_bytes-Ends 1 _ b2)
              λ c b3 _. bind-Ends 0 _ (pop_bytes-Ends 4 _ b3) λ d b4 _. pure-Ends _ b4))
      (Ends-if (format == 1)
        (Ends-weaken (omega arith) (
          bind-Ends 4 _ (pop_bytes-Ends 3 _ bs) λ a b1 _.
            bind-Ends 1 _ (pop_bytes-Ends 3 _ b1)
              λ b b2 _. bind-Ends 0 _ (pop_bytes-Ends 1 _ b2) λ c b3 _. pure-Ends _ b3))
        (Ends-if (format == 2)
          (Ends-weaken (omega arith)
            (bind-Ends 0 _ (pop_bytes-Ends 3 _ bs) λ a b1 _. pure-Ends _ b1))
          (pure-Ends c bs)))

deserialize_extension-Ends :
    (h : ChunkHeader) (bs : ByteStream) → Ends 0 (deserialize_extension h) bs
unfolding deserialize_extension
deserialize_extension-Ends h bs =
    Ends-if _
      (Ends-weaken (omega arith) (bind-Ends 0 _ (pop_bytes-Ends 4 _ bs) λ a b1 _. pure-Ends _ b1))
      (pure-Ends h bs)

-- Reading a chunk header takes at least a byte, or throws.
pub deserialize_header-Ends : (h : ChunkHeader) (bs : ByteStream) → Ends 1 (deserialize_header h) bs
unfolding deserialize_header deserialize_basic
deserialize_header-Ends h bs =
    bind-Ends 0 _ (bind-Ends 0 _ (pop-Ends 1 bs) λ first b1 _. deserialize_id-Ends first b1)
      λ basic b2 _.
        bind-Ends 0 _ (deserialize_common-Ends _ _ b2) λ c b3 _. deserialize_extension-Ends _ b3

complete_header-Ends :
    (h : ChunkHeader) (previous : Option ChunkCommon) (bs : ByteStream)
    → Ends 0 (complete_header h previous) bs
unfolding complete_header
complete_header-Ends h none bs = Ends-if (h.basic.format == 0) (pure-Ends _ bs) (pure-Ends _ bs)
complete_header-Ends h (some p) bs = Ends-if (h.basic.format == 0) (pure-Ends _ bs) (
    Ends-if (h.basic.format == 1) (pure-Ends _ bs) (
      Ends-if (h.basic.format == 2) (pure-Ends _ bs) (
        Ends-if (p.timestamp == extended_mark)
          (Ends-weaken (omega arith)
            (bind-Ends 0 _ (pop_bytes-Ends 4 h.extended_timestamp bs) λ a b1 _. pure-Ends _ b1))
          (pure-Ends _ bs))))

-- How the read of a chunk ends, on a buffer of `n` bytes.
pub data Progresses (n : ℕ) : Result (Option Taken × ByteStream) → Type 0 where
  threw : Progresses n throws
  refused : (bs : ByteStream) → Progresses n (ok (none, bs))
  took :
      (t : Taken) (bs : ByteStream)
      → length t.session.read_data_buffer < n
      → bs ≡ open_stream t.session.read_data_buffer
      → Progresses n (ok (some t, bs))

Progresses-bind {ℓ} :
    {A : Type ℓ} {n k : ℕ} {bs : ByteStream} {r : Result (A × ByteStream)}
    (f : A → Stream (Option Taken))
    → Shrinks k bs r
    → ((a : A) (bs' : ByteStream) → remain bs' + k ≤ remain bs → Progresses n (f a bs'))
    → Progresses n (Result.◌>>=◌ r (λ (a, bs'). f a bs'))
Progresses-bind f (returned {a} {bs'} h) g = g a bs' h
Progresses-bind f thrown g = threw

commit-reads : (bs : ByteStream) → commit bs ≡ open_stream (commit bs).bytes
unfolding commit open_stream
commit-reads bs = refl

length-commit : (bs : ByteStream) → length (commit bs).bytes ≡ remain bs
unfolding commit remain
length-commit bs = length-drop bs.head bs.bytes

option_cases {ℓ} : {A : Type ℓ} (o : Option A) → (o ≡ none) ⊎ ((a : A) × (o ≡ some a))
option_cases none = inl refl
option_cases (some a) = inr (a, refl)

remain-open : (xs : List ℕ) → remain (open_stream xs) ≡ length xs
unfolding remain open_stream
remain-open xs = omega arith

take_chunk-Progresses :
    (n : ℕ) (s : RtmpSession) (h : ChunkHeader) (bs : ByteStream)
    → remain bs < n
    → Progresses n (take_chunk s h bs)
unfolding take_chunk
take_chunk-Progresses n s h bs l =
    let msg_id = get_message_id h.basic.chunk_stream_id h.common.message_stream_id in
    let count = expected_length s.max_chunk_size h (s.reading_messages msg_id) in
    elim (option_cases (message_timestamp h (s.message_previous_timestamp msg_id))) [
      | inl e ↦ rw (e, take_chunk) (refused bs)
      | inr (timestamp, e) ↦ elim (Bool-cases (ltb (remain bs) count)) [
        | inl g ↦ rw (e, take_chunk) (rw g threw)
        | inr g ↦
            rw (e, take_chunk)
              (rw g (
                unfold ◌>>=◌ in
                Progresses-bind _ (pop_raw-Ends count bs).run λ part bs' j.
                  took _ (commit bs') (omega (arith, l, j, length-commit bs')) (commit-reads bs')))
      ]
    ]

continue_take :
    (n : ℕ) (s : RtmpSession) (bs : ByteStream)
    → remain bs < n
    → (completed : Option ChunkHeader)
    → let next : Stream (Option Taken) = elim completed [
      | none ↦ pure none
      | some h ↦ take_chunk s h
    ] in
      Progresses n (next bs)
unfolding pure
continue_take n s bs l none = refused bs
continue_take n s bs l (some h) = take_chunk-Progresses n s h bs l

-- Whatever the read buffer holds, the read of a chunk neither aborts nor reads out of bounds nor
-- runs out of fuel: it throws, refuses the chunk, or gives a session whose read buffer is shorter,
-- and is what the stream holds.
pub read_chunk-Progresses :
    (s : RtmpSession) → Progresses (length s.read_data_buffer) (read_chunk s)
unfolding read_chunk ◌>>=◌
read_chunk-Progresses s =
    Progresses-bind _ (deserialize_header-Ends new_header (open_stream s.read_data_buffer)).run
      λ h b1 l. Progresses-bind _ (complete_header-Ends h _ b1).run λ completed b2 j.
        continue_take _ s b2 (let r = remain-open s.read_data_buffer in omega (arith, l, j, r))
          completed
