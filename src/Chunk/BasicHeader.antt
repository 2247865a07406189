-- ===== src/Chunk/BasicHeader.antt =====
-- The basic header of a chunk in its three forms: what serialize_basic appends, and what
-- deserialize_basic makes of it.
use live_streaming.Base.{
  ℕ, ◌+◌, ◌-◌, ◌*◌, ◌/◌, ◌^◌, ◌<◌, ◌≤◌, ◌≡◌, true, false, List, [], ◌++◌, bit_and, leb, ◌==◌,
  if◌then◌else◌, arith, bit_and-low_six, bit_and-high_two, bit_or-fields, bit_or-one, ◌⊎◌, inl, inr,
  ◌∙◌, append-nil, ap, subst,
}
use live_streaming.Stream.{be_bytes}
use live_streaming.Stream.Codec.{
  Encodes, Decodes, push_bytes-Encodes, pop-Decodes, pure-Decodes, Encodes-then, Decodes-bind,
  Decodes-eq,
}
use live_streaming.Chunk.{
  ChunkBasic, ChunkCommon, serialize_basic, deserialize_id, deserialize_basic,
}

-- The chunk stream ids that the three forms of the basic header can name.
pub record IsBasic (b : ChunkBasic) : Type 0 where
  pub format_lt : b.format < 4
  pub id_ge : 2 ≤ b.chunk_stream_id
  pub id_lt : b.chunk_stream_id < 65600

pub record IsCommon (c : ChunkCommon) : Type 0 where
  pub timestamp_lt : c.timestamp < 256 ^ 4
  pub length_lt : c.length < 256 ^ 3
  pub type_lt : c.type < 256 ^ 1
  pub message_stream_id_lt : c.message_stream_id < 256 ^ 4

pub encode_basic : ChunkBasic → List ℕ
encode_basic b =
    let id = b.chunk_stream_id in
    if leb id 63
    then be_bytes 1 (b.format * 64 + id)
    else if leb id 319
    then be_bytes 1 (b.format * 64) ++ be_bytes 1 (id - 64)
    else be_bytes 1 (b.format * 64 + 1) ++ be_bytes 2 (id - 64)

-- The three forms, by the tests that pick them.
form_cases :
    (id : ℕ)
    → (leb id 63 ≡ true)
      ⊎ ((leb id 63 ≡ false) × (leb id 319 ≡ true))
      ⊎ ((leb id 63 ≡ false) × (leb id 319 ≡ false))
form_cases id = ground arith

pub serialize_basic-Encodes :
    (b : ChunkBasic) → IsBasic b → Encodes (serialize_basic b) (encode_basic b)
unfolding serialize_basic encode_basic
serialize_basic-Encodes b v = elim (form_cases b.chunk_stream_id) [
  | inl e ↦
      rw (e, bit_or-fields b.format b.chunk_stream_id v.format_lt (ground arith))
        (push_bytes-Encodes 1 _)
  | inr (inl (e, f)) ↦
      rw (e, f, bit_and-high_two b.format v.format_lt)
        (Encodes-then (push_bytes-Encodes 1 _) (push_bytes-Encodes 1 _))
  | inr (inr (e, f)) ↦
      rw (e, f, bit_and-high_two b.format v.format_lt, bit_or-one b.format v.format_lt)
        (Encodes-then (push_bytes-Encodes 1 _) (push_bytes-Encodes 2 _))
]

module _ (f k : ℕ) (h : f < 4) (g : k < 64) where
  first_low : bit_and (f * 64 + k) 0x3F ≡ k
  first_low = bit_and-low_six (f * 64 + k) (omega arith) ∙ omega arith

  first_high : (f * 64 + k) / 64 ≡ f
  first_high = omega arith

  deserialize_id_short :
      2 ≤ k → Decodes (deserialize_id (f * 64 + k)) [] (record { format = f; chunk_stream_id = k })
  unfolding deserialize_id
  deserialize_id_short l =
      let z : (k == 0) ≡ false = ground arith in
      let o : (k == 1) ≡ false = ground arith in rw (first_low, first_high, z, o) (pure-Decodes _)

abbrev long_basic : ℕ → ℕ → ChunkBasic
long_basic f i = record { format = f; chunk_stream_id = i + 64 }

deserialize_id_medium :
    (f i : ℕ)
    → f < 4
    → i < 256 ^ 1
    → Decodes (deserialize_id (f * 64 + 0)) (be_bytes 1 i) (long_basic f i)
unfolding deserialize_id
deserialize_id_medium f i h g =
    rw (first_low f 0 h (omega arith), first_high f 0 h (omega arith))
      (Decodes-eq (append-nil _) (Decodes-bind _ (pop-Decodes 1 i g) (pure-Decodes _)))

deserialize_id_long :
    (f i : ℕ)
    → f < 4
    → i < 256 ^ 2
    → Decodes (deserialize_id (f * 64 + 1)) (be_bytes 2 i) (long_basic f i)
unfolding deserialize_id
deserialize_id_long f i h g =
    rw (first_low f 1 h (omega arith), first_high f 1 h (omega arith))
      (Decodes-eq (append-nil _) (Decodes-bind _ (pop-Decodes 2 i g) (pure-Decodes _)))

via_first :
    (f k : ℕ) (ys : List ℕ) (b : ChunkBasic)
    → f < 4
    → k < 64
    → Decodes (deserialize_id (f * 64 + k)) ys b
    → Decodes deserialize_basic (be_bytes 1 (f * 64 + k) ++ ys) b
unfolding deserialize_basic
via_first f k ys b h g d = Decodes-bind deserialize_id (pop-Decodes 1 (f * 64 + k) (omega arith)) d

long_basic-eq :
    (b : ChunkBasic) → 64 ≤ b.chunk_stream_id → long_basic b.format (b.chunk_stream_id - 64) ≡ b
long_basic-eq b h =
    let e : b.chunk_stream_id - 64 + 64 ≡ b.chunk_stream_id = omega arith in
    ap (λ (i : ℕ). record b { chunk_stream_id = i }) e

pub deserialize_basic-Decodes :
    (b : ChunkBasic) → IsBasic b → Decodes deserialize_basic (encode_basic b) b
unfolding encode_basic
deserialize_basic-Decodes b v = elim (form_cases b.chunk_stream_id) [
  | inl e ↦ rw e (
      Decodes-eq (append-nil _) (
        via_first b.format b.chunk_stream_id [] b v.format_lt (ground arith)
          (deserialize_id_short b.format b.chunk_stream_id v.format_lt (ground arith) v.id_ge)))
  | inr (inl (e, f)) ↦
      rw (e, f)
        (let z : b.format * 64 + 0 ≡ b.format * 64 = omega arith in
          subst
            (λ (n : ℕ).
              Decodes deserialize_basic (be_bytes 1 n ++ be_bytes 1 (b.chunk_stream_id - 64)) b)
            z
            (via_first b.format 0 _ b v.format_lt (omega arith) (
              subst (Decodes (deserialize_id (b.format * 64 + 0)) _)
                (long_basic-eq b (ground arith))
                (deserialize_id_medium b.format (b.chunk_stream_id - 64) v.format_lt
                  (ground arith)))))
  | inr (inr (e, f)) ↦
      rw (e, f)
        (via_first b.format 1 _ b v.format_lt (omega arith) (
          subst (Decodes (deserialize_id (b.format * 64 + 1)) _) (long_basic-eq b (ground arith))
            (deserialize_id_long b.format (b.chunk_stream_id - 64) v.format_lt (ground arith))))
]
