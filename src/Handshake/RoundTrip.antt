-- ===== src/Handshake/RoundTrip.antt =====
-- A handshake message as it travels.
use live_streaming.Base.{ℕ, ◌+◌, ◌^◌, ◌<◌, ◌≡◌, ap, subst, ◌∙◌, List, ◌++◌, length, append_assoc}
use live_streaming.Result.{ok}
use live_streaming.Stream.{ByteStream, be_bytes, pop_raw}
use live_streaming.Stream.Codec.{
  Encodes, push_bytes-Encodes, push_raw-Encodes, pop_bytes-Decodes, pop_raw-Decodes, Encodes-then,
  unread, unread-advance, advance, sizes,
}
use live_streaming.Handshake.{
  CommonHandshakeMessage, random_size, serialize_handshake, deserialize_handshake, fill_sent,
  fill_random,
}

pub record IsHandshake (m : CommonHandshakeMessage) : Type 0 where
  pub timestamp_lt : m.timestamp < 256 ^ 4
  pub timestamp_sent_lt : m.timestamp_sent < 256 ^ 4
  pub random_length : length m.random_data ≡ random_size

unfoldable pub encode_handshake : CommonHandshakeMessage → List ℕ
encode_handshake m = be_bytes 4 m.timestamp ++ (be_bytes 4 m.timestamp_sent ++ m.random_data)

-- A message takes 1536 bytes.
pub length-encode_handshake :
    (m : CommonHandshakeMessage) → IsHandshake m → length (encode_handshake m) ≡ 1536
unfolding encode_handshake
length-encode_handshake m v = omega (sizes, v.random_length)

pub serialize_handshake-Encodes :
    (m : CommonHandshakeMessage) → Encodes (serialize_handshake m) (encode_handshake m)
unfolding serialize_handshake encode_handshake
serialize_handshake-Encodes m =
    Encodes-then (push_bytes-Encodes 4 _)
      (Encodes-then (push_bytes-Encodes 4 _) (push_raw-Encodes m.random_data))

-- A message comes back into any object whose timestamps are 32-bit numbers.
pub deserialize_handshake-encode :
    (old m : CommonHandshakeMessage) (bs : ByteStream) (rest : List ℕ)
    → old.timestamp < 256 ^ 4
    → old.timestamp_sent < 256 ^ 4
    → IsHandshake m
    → unread bs ≡ encode_handshake m ++ rest
    → deserialize_handshake old bs ≡ (m, ok (advance 1536 bs))
unfolding deserialize_handshake encode_handshake fill_sent fill_random
deserialize_handshake-encode old m bs rest ho hs v e =
    let e1 = e ∙ append_assoc (be_bytes 4 m.timestamp) _ rest in
    let bs1 = advance (length (be_bytes 4 m.timestamp)) bs in
    let p1 = (pop_bytes-Decodes 4 old.timestamp m.timestamp v.timestamp_lt ho).run bs _ e1 in
    let e2 =
      unread-advance bs _ _ e1 ∙ append_assoc (be_bytes 4 m.timestamp_sent) m.random_data rest in
    let bs2 = advance (length (be_bytes 4 m.timestamp_sent)) bs1 in
    let p2 =
      (pop_bytes-Decodes 4 old.timestamp_sent m.timestamp_sent v.timestamp_sent_lt hs).run bs1 _
        e2 in
    let e3 = unread-advance bs1 _ _ e2 in
    let p3 = (pop_raw-Decodes m.random_data).run bs2 _ e3 in
    let p4 =
      subst (λ (k : ℕ). pop_raw k bs2 ≡ ok (m.random_data, advance k bs2)) v.random_length p3 in
    let n : bs2.head + random_size ≡ bs.head + 1536 = omega sizes in
    rw (p1, deserialize_handshake)
      (rw (p2, fill_sent)
        (rw (p4, fill_random) (ap (λ (k : ℕ). (m, ok (record bs { head = k }))) n)))

-- A handshake message whose timestamps are 32-bit numbers and whose random data has 1528 bytes is
-- written as 1536 bytes, and read back from them into any message with 32-bit timestamps, whatever
-- follows.
serialize_handshake-RoundTrips :
    (old m : CommonHandshakeMessage)
    → (old.timestamp < 256 ^ 4) × (old.timestamp_sent < 256 ^ 4)
    → IsHandshake m
    → (xs : List ℕ) × (length xs ≡ 1536)
      × Encodes (serialize_handshake m) xs
      × ((bs : ByteStream) (rest : List ℕ)
          → unread bs ≡ xs ++ rest
          → deserialize_handshake old bs ≡ (m, ok (advance 1536 bs)))
serialize_handshake-RoundTrips old m h v = (
  encode_handshake m,
  length-encode_handshake m v,
  serialize_handshake-Encodes m,
  λ bs rest e. deserialize_handshake-encode old m bs rest h.0 h.1 v e,
)
