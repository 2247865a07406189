-- ===== src/Chunk/RoundTrip.antt =====
-- A whole chunk header as it travels.
use live_streaming.Base.{
  ℕ, zero, suc, ◌^◌, ◌<◌, ◌≤◌, ◌≡◌, refl, true, false, List, [], ◌++◌, leb, ◌==◌, if◌then◌else◌,
  arith, append-nil, Bool-cases, inl, inr, ◌⊎◌,
}
use live_streaming.Stream.{pure, push_bytes, be_bytes}
use live_streaming.Stream.Codec.{
  Encodes, Decodes, RoundTrips, push_bytes-Encodes, pop_bytes-Decodes, pure-Encodes, pure-Decodes,
  Encodes-then, Decodes-bind, Decodes-eq,
}
use live_streaming.Chunk.{
  ChunkCommon, ChunkHeader, no_common, new_header, extended_mark, serialize_common,
  serialize_header, deserialize_common, deserialize_header, deserialize_extension,
}
use live_streaming.Chunk.BasicHeader.{
  IsBasic, encode_basic, serialize_basic-Encodes, deserialize_basic-Decodes,
}

pub record IsCommon (c : ChunkCommon) : Type 0 where
  pub timestamp_lt : c.timestamp < 256 ^ 4
  pub length_lt : c.length < 256 ^ 3
  pub type_lt : c.type < 256 ^ 1
  pub message_stream_id_lt : c.message_stream_id < 256 ^ 4

-- The timestamp as the message header shows it: a large one is replaced by the mark.
unfoldable pub wire_timestamp : ℕ → ℕ
wire_timestamp t = if leb extended_mark t then extended_mark else t

unfoldable pub encode_common : ℕ → ChunkCommon → List ℕ
encode_common zero c =
    be_bytes 3 c.timestamp
    ++ (be_bytes 3 c.length ++ (be_bytes 1 c.type ++ be_bytes 4 c.message_stream_id))
encode_common (suc zero) c = be_bytes 3 c.timestamp ++ (be_bytes 3 c.length ++ be_bytes 1 c.type)
encode_common (suc (suc zero)) c = be_bytes 3 c.timestamp
encode_common (suc (suc (suc n))) c = []

-- What a receiver with a new header knows after a message header of this format.
unfoldable pub visible : ℕ → ChunkCommon → ChunkCommon
visible zero c = c
visible (suc zero) c = record c { message_stream_id = 0 }
visible (suc (suc zero)) c = record no_common { timestamp = c.timestamp }
visible (suc (suc (suc n))) c = no_common

three_ne : (n k : ℕ) → k < 3 → (suc (suc (suc n)) == k) ≡ false
three_ne n k h = ground arith

serialize_common-Encodes :
    (format : ℕ) (c : ChunkCommon)
    → Encodes (serialize_common format c.timestamp c) (encode_common format c)
unfolding serialize_common encode_common
serialize_common-Encodes zero c = Encodes-then (push_bytes-Encodes 3 _) (
    Encodes-then (push_bytes-Encodes 3 _)
      (Encodes-then (push_bytes-Encodes 1 _) (push_bytes-Encodes 4 _)))
serialize_common-Encodes (suc zero) c =
    Encodes-then (push_bytes-Encodes 3 _)
      (Encodes-then (push_bytes-Encodes 3 _) (push_bytes-Encodes 1 _))
serialize_common-Encodes (suc (suc zero)) c = push_bytes-Encodes 3 _
serialize_common-Encodes (suc (suc (suc n))) c =
    rw (three_ne n 0 (omega arith), three_ne n 1 (omega arith), three_ne n 2 (omega arith))
      pure-Encodes

deserialize_common-Decodes :
    (format : ℕ) (c : ChunkCommon)
    → IsCommon c
    → c.timestamp < 256 ^ 3
    → Decodes (deserialize_common format no_common) (encode_common format c) (visible format c)
unfolding deserialize_common encode_common visible
deserialize_common-Decodes zero c v h = Decodes-bind _ (pop_bytes-Decodes 3 _ _ h (omega arith)) (
    Decodes-bind _ (pop_bytes-Decodes 3 _ _ v.length_lt (omega arith)) (
      Decodes-bind _ (pop_bytes-Decodes 1 _ _ v.type_lt (omega arith)) (
        Decodes-eq (append-nil _) (
          Decodes-bind _ (pop_bytes-Decodes 4 _ _ v.message_stream_id_lt (omega arith))
            (pure-Decodes _)))))
deserialize_common-Decodes (suc zero) c v h =
    Decodes-bind _ (pop_bytes-Decodes 3 _ _ h (omega arith)) (
      Decodes-bind _ (pop_bytes-Decodes 3 _ _ v.length_lt (omega arith)) (
        Decodes-eq (append-nil _)
          (Decodes-bind _ (pop_bytes-Decodes 1 _ _ v.type_lt (omega arith)) (pure-Decodes _))))
deserialize_common-Decodes (suc (suc zero)) c v h =
    Decodes-eq (append-nil _)
      (Decodes-bind _ (pop_bytes-Decodes 3 _ _ h (omega arith)) (pure-Decodes _))
deserialize_common-Decodes (suc (suc (suc n))) c v h =
    rw (three_ne n 0 (omega arith), three_ne n 1 (omega arith), three_ne n 2 (omega arith))
      (pure-Decodes _)

-- The header as the message part of it shows.
abbrev wired : ChunkCommon → ChunkCommon
wired c = record c { timestamp = wire_timestamp c.timestamp }

unfoldable pub extension : ChunkHeader → List ℕ
extension h = if leb extended_mark h.common.timestamp then be_bytes 4 h.common.timestamp else []

unfoldable pub encode_header : ChunkHeader → List ℕ
encode_header h =
    encode_basic h.basic ++ (encode_common h.basic.format (wired h.common) ++ extension h)

-- What a receiver that starts from a new header makes of it.
unfoldable pub received : ChunkHeader → ChunkHeader
received h = record {
  basic = h.basic;
  common = visible h.basic.format (wired h.common);
  extended_timestamp = if leb extended_mark h.common.timestamp then h.common.timestamp else 0;
}

wired-eq_cases :
    (t : ℕ)
    → ((leb extended_mark t ≡ true) × (wire_timestamp t ≡ extended_mark) × (extended_mark ≤ t))
      ⊎ ((leb extended_mark t ≡ false) × (wire_timestamp t ≡ t) × (t < extended_mark))
unfolding wire_timestamp
wired-eq_cases t = ground arith

pub serialize_header-Encodes :
    (h : ChunkHeader) → IsBasic h.basic → Encodes (serialize_header h) (encode_header h)
unfolding serialize_header encode_header extension wire_timestamp serialize_common
serialize_header-Encodes h v =
    Encodes-then (serialize_basic-Encodes h.basic v)
      (Encodes-then (serialize_common-Encodes h.basic.format (wired h.common)) last)
  where
    last :
        Encodes
          (if (if leb extended_mark h.common.timestamp then h.common.timestamp else 0) == 0
            then pure tt
            else push_bytes 4
                (if leb extended_mark h.common.timestamp then h.common.timestamp else 0))
          (if leb extended_mark h.common.timestamp then be_bytes 4 h.common.timestamp else [])
    last = elim (Bool-cases (leb extended_mark h.common.timestamp)) [
      | inl e ↦
          let z : (h.common.timestamp == 0) ≡ false = ground arith in
          rw (e, z) (push_bytes-Encodes 4 _)
      | inr e ↦ rw e pure-Encodes
    ]

wired-IsCommon : (c : ChunkCommon) → IsCommon c → IsCommon (wired c)
unfolding wire_timestamp
wired-IsCommon c v = ground arith

wired_small : (t : ℕ) → wire_timestamp t < 256 ^ 3
unfolding wire_timestamp
wired_small t = ground arith

visible-timestamp :
    (format : ℕ) (c : ChunkCommon) → format < 3 → (visible format c).timestamp ≡ c.timestamp
unfolding visible
visible-timestamp zero c h = refl
visible-timestamp (suc zero) c h = refl
visible-timestamp (suc (suc zero)) c h = refl
visible-timestamp (suc (suc (suc n))) c h = absurd (omega arith)

deserialize_extension-Decodes :
    (h : ChunkHeader) (t : ℕ)
    → t < 256 ^ 4
    → h.common.timestamp ≡ wire_timestamp t
    → h.extended_timestamp ≡ 0
    → Decodes
        (deserialize_extension h)
        (if leb extended_mark t then be_bytes 4 t else [])
        (record h { extended_timestamp = if leb extended_mark t then t else 0 })
unfolding deserialize_extension
deserialize_extension-Decodes h t small e z = elim (wired-eq_cases t) [
  | inl (l, m, g) ↦
      let hit : (h.common.timestamp == extended_mark) ≡ true = ground arith in
      rw (l, hit)
        (Decodes-eq (append-nil _) (
          Decodes-bind _ (pop_bytes-Decodes 4 h.extended_timestamp t small (omega arith))
            (pure-Decodes _)))
  | inr (l, m, g) ↦
      let miss : (h.common.timestamp == extended_mark) ≡ false = ground arith in
      rw (l, miss) (rw (← z) (pure-Decodes h))
]

pub deserialize_header-Decodes :
    (h : ChunkHeader)
    → IsBasic h.basic
    → IsCommon h.common
    → h.basic.format < 3
    → Decodes (deserialize_header new_header) (encode_header h) (received h)
unfolding deserialize_header encode_header extension received
deserialize_header-Decodes h v w f = Decodes-bind _ (deserialize_basic-Decodes h.basic v) (
    Decodes-bind _
      (deserialize_common-Decodes h.basic.format (wired h.common) (wired-IsCommon h.common w)
        (wired_small h.common.timestamp))
      (deserialize_extension-Decodes _ h.common.timestamp w.timestamp_lt
        (visible-timestamp h.basic.format (wired h.common) f) refl))

-- A header of format 0, 1 or 2, with a chunk stream id from 2 to 65599 and fields that fit their
-- widths, comes back in any of the three forms of its basic header: a new header reads the same
-- basic header, those of the message fields that the format carries, the mark for a timestamp of
-- 0xFFFFFF or more, and then the timestamp itself as the extended one.
pub serialize_header-RoundTrips :
    (h : ChunkHeader)
    → IsBasic h.basic
    → IsCommon h.common
    → h.basic.format < 3
    → RoundTrips (serialize_header h) (deserialize_header new_header) (received h)
serialize_header-RoundTrips h v w f =
    (encode_header h, serialize_header-Encodes h v, deserialize_header-Decodes h v w f)
