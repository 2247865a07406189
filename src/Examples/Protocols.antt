-- ===== src/Examples/Protocols.antt =====
-- Numbers of two bytes as protocols of util/net, whose bytes come in pieces; an empty string that is
-- pushed last.
use native.Mathlib.Nat.{mod-eq_of_lt}
use live_streaming.Base.{
  ℕ, ◌^◌, ◌%◌, ◌<◌, ◌≡◌, refl, ap, ◌∙◌, subst, true, false, List, [], ◌∷◌, ◌++◌, length, none, some,
  arith, length-append_bytes,
}
use live_streaming.Result.{ok}
use live_streaming.Stream.{be_bytes, be_value}
use live_streaming.Stream.Codec.{length-be_bytes, be_value-be_bytes}
use live_streaming.Net.Stream.{new_stream, pop_bytes, check_length, push_octets, pop_octets}
use live_streaming.Net.Stream.RoundTrip.{
  halfway, pop_bytes-halfway, check_length-halfway, pop_octets-push_octets, octets_bytes,
}
use live_streaming.Net.Receiver.{exchanger_reads, Readings}
use live_streaming.Net.Receiver.Splitting.{encodes}
use live_streaming.Net.Receiver.Reassembly.{Codec, exchanger_reads-encodes}

pub number_reads :
    (p : ℕ) (rest : List ℕ)
    → p < 65536
    → length (be_bytes 2 p ++ rest) < 2 ^ 32
    → pop_bytes 2 (new_stream (be_bytes 2 p ++ rest)) ≡ (some p, halfway 0 (be_bytes 2 p) rest)
number_reads p rest f l =
    let n = length-be_bytes 2 p in
    let a = length-append_bytes (be_bytes 2 p) rest in
    let z : p % 256 ^ 2 ≡ p = mod-eq_of_lt (omega (arith, f)) in
    let v : be_value 0 (be_bytes 2 p) ≡ p = be_value-be_bytes 2 0 p ∙ omega (arith, z) in
    subst
      (λ k.
        pop_bytes k (new_stream (be_bytes 2 p ++ rest)) ≡ (some p, halfway 0 (be_bytes 2 p) rest))
      n
      (pop_bytes-halfway 0 [] (be_bytes 2 p) rest (omega (arith, a, n)) (omega (arith, a, l))
        ∙ rw v refl)

pub number_waits :
    (xs : List ℕ) → length xs < 2 → pop_bytes 2 (new_stream xs) ≡ (none, new_stream xs)
unfolding pop_bytes
number_waits xs l =
    let e : check_length 2 (new_stream xs) ≡ false =
      check_length-halfway 2 0 [] xs ∙ ground (arith, l) in
    rw e refl

abbrev pub numbers : Codec ℕ
numbers = record {
  encode = be_bytes 2;
  deserialize = pop_bytes 2;
  Fits = λ p. p < 65536;
  some_bytes = λ p f. omega (arith, length-be_bytes 2 p);
  reads = number_reads;
  throws = λ p xs ys f e l. (
    new_stream xs,
    number_waits xs (omega (arith, length-be_bytes 2 p, ap length e, length-append_bytes xs ys, l)),
    refl,
  );
  throws_at_end = (new_stream [], number_waits [] (omega arith), refl);
}

abbrev pieces : List Readings
pieces =
    record { reads = (1 ∷ []) ∷ [] ∷ (2 ∷ 3 ∷ []) ∷ []; again = true }
    ∷ record { reads = (4 ∷ 0 ∷ []) ∷ []; again = true }
    ∷ record { reads = (7 ∷ []) ∷ []; again = true }
    ∷ []

exchanger_reads-encodes_example :
    (come to_come : List ℕ) × (q : List ℕ) × (258 ∷ 772 ∷ 7 ∷ [] ≡ come ++ to_come)
    × (exchanger_reads
          (pop_bytes 2)
          (λ p. true)
          pieces
          (record { read_data = []; received = []; closed = false })
        ≡ ok (record { read_data = q; received = come; closed = false }))
    × (q ++ [] ≡ encodes (be_bytes 2) to_come)
    × ((p : ℕ) (more : List ℕ) → to_come ≡ p ∷ more → length q < length (be_bytes 2 p))
    × (◌≡◌ {A = List ℕ} [] [] → to_come ≡ [])
unfolding be_bytes
exchanger_reads-encodes_example =
    exchanger_reads-encodes numbers (λ p. true) (λ p. refl) pieces (258 ∷ 772 ∷ 7 ∷ []) [] refl
      (omega arith, (omega arith, (omega arith, tt)))
      ((refl, omega arith), ((refl, omega arith), ((refl, omega arith), tt))) (omega arith)

pop_octets-push_octets_example :
    let os = push_octets (5 ∷ 6 ∷ []) (halfway 0 [] []) in
    let pushed = record os { octets = os.octets ++ 9 ∷ [] } in
    (0 < 3
      → pop_octets pushed ≡ (some (5 ∷ 6 ∷ []), halfway 0 (octets_bytes (5 ∷ 6 ∷ [])) (9 ∷ [])))
    × (◌≡◌ {A = ℕ} 3 0 → (pop_octets pushed).0 ≡ none)
pop_octets-push_octets_example = pop_octets-push_octets 0 [] (5 ∷ 6 ∷ []) (9 ∷ []) (omega arith)
