-- ===== src/Net/Stream/RoundTrip.antt =====
-- What is pushed to a stream of util/net/octets.h is popped again.
use native.Mathlib.Nat.{mod-eq_of_lt}
use live_streaming.Base.{
  ℕ, ◌+◌, ◌-◌, ◌%◌, ◌^◌, ◌<◌, ◌≡◌, refl, sym, ap, ◌∙◌, true, List, [], ◌++◌, length, take, drop,
  ltb, leb, ◌&&◌, none, some, arith, length-append, drop-length_append, take-length_append,
  append_assoc, append-nil, subst,
}
use live_streaming.Stream.{be_value, be_bytes}
use live_streaming.Stream.Codec.{length-be_bytes, be_value-be_bytes}
use live_streaming.Net.Stream.{
  OctetsStream, check_length, ahead, pop_bytes, pop_front, pop_octets, pop_sized, push_bytes,
  push_octets,
}

-- The stream's bytes are `done`, which were read, and `todo`.
abbrev pub halfway : ℕ → List ℕ → List ℕ → OctetsStream
halfway start done todo = record {
  octets = done ++ todo;
  start_cursor = start;
  cursor = length done;
}

pub check_length-halfway :
    (size start : ℕ) (done todo : List ℕ)
    → check_length size (halfway start done todo) ≡ (ltb 0 (length todo) && leb size (length todo))
unfolding check_length
check_length-halfway size start done todo =
    let n = length-append done todo in
    let e : length (done ++ todo) - length done ≡ length todo = omega (arith, n) in
    let f : ltb (length done) (length (done ++ todo)) ≡ ltb 0 (length todo) = ground (arith, n) in
    rw (e, f) refl

pub ahead-halfway :
    (start : ℕ) (done xs rest : List ℕ)
    → length (done ++ xs) < 2 ^ 32
    → ahead (length xs) (halfway start done (xs ++ rest)) ≡ halfway start (done ++ xs) rest
ahead-halfway start done xs rest l =
    let e : (length done + length xs) % 2 ^ 32 ≡ length (done ++ xs) =
      ap (λ n. n % 2 ^ 32) (sym (length-append done xs)) ∙ mod-eq_of_lt l in
    rw (e, append_assoc done xs rest) refl

module _ (start : ℕ) (done xs rest : List ℕ) (some_left : 0 < length (xs ++ rest))
    (l : length (done ++ xs) < 2 ^ 32) where
  enough : check_length (length xs) (halfway start done (xs ++ rest)) ≡ true
  enough =
      check_length-halfway (length xs) start done (xs ++ rest)
      ∙ (let n = length-append xs rest in ground (arith, n))

  read : take (length xs) (drop (length done) (done ++ (xs ++ rest))) ≡ xs
  read = rw (drop-length_append done (xs ++ rest)) (take-length_append xs rest)

  pub pop_front-halfway :
      pop_front (length xs) (halfway start done (xs ++ rest))
      ≡ (some xs, halfway start (done ++ xs) rest)
  unfolding pop_front
  pop_front-halfway = rw (enough, read, ahead-halfway start done xs rest l) refl

  pub pop_bytes-halfway :
      pop_bytes (length xs) (halfway start done (xs ++ rest))
      ≡ (some (be_value 0 xs), halfway start (done ++ xs) rest)
  unfolding pop_bytes
  pop_bytes-halfway = rw (enough, read, ahead-halfway start done xs rest l) refl

abbrev pub octets_bytes : List ℕ → List ℕ
octets_bytes xs = be_bytes 8 (length xs) ++ xs

pop_size :
    (start size : ℕ) (done rest : List ℕ)
    → size < 2 ^ 32
    → length done + 8 < 2 ^ 32
    → pop_bytes 8 (halfway start done (be_bytes 8 size ++ rest))
      ≡ (some size, halfway start (done ++ be_bytes 8 size) rest)
pop_size start size done rest l k =
    let n = length-be_bytes 8 size in
    let a = length-append (be_bytes 8 size) rest in
    let b = length-append done (be_bytes 8 size) in
    let r =
      pop_bytes-halfway start done (be_bytes 8 size) rest (omega (arith, a, n))
        (omega (arith, b, n, k)) in
    let z : size % 256 ^ 8 ≡ size = mod-eq_of_lt (omega (arith, l)) in
    let v : be_value 0 (be_bytes 8 size) ≡ size = be_value-be_bytes 8 0 size ∙ omega (arith, z) in
    subst
      (λ k.
        pop_bytes k (halfway start done (be_bytes 8 size ++ rest))
        ≡ (some size, halfway start (done ++ be_bytes 8 size) rest))
      n (r ∙ rw v refl)

-- Octets that are pushed to a stream are popped again, whatever was pushed after them, unless they
-- are empty and at the end of the stream: then the pop throws. The stream has fewer than 2^32 bytes.
pub pop_octets-push_octets :
    (start : ℕ) (done xs rest : List ℕ)
    → length done + 8 + length xs < 2 ^ 32
    → let os = push_octets xs (halfway start done []) in
      let pushed = record os { octets = os.octets ++ rest } in
      (0 < length (xs ++ rest)
        → pop_octets pushed ≡ (some xs, halfway start (done ++ octets_bytes xs) rest))
      × (length (xs ++ rest) ≡ 0 → (pop_octets pushed).0 ≡ none)
unfolding push_octets push_bytes pop_octets pop_front
pop_octets-push_octets start done xs rest l =
    let head = be_bytes 8 (length xs) in
    let os = push_octets xs (halfway start done []) in
    let pushed : OctetsStream = record os { octets = os.octets ++ rest } in
    let whole : pushed ≡ halfway start done (head ++ (xs ++ rest)) =
      ap (λ ys. record { octets = ys; start_cursor = start; cursor = length done })
        (ap (λ ys. ys ++ rest) (rw (append-nil done) (append_assoc done head xs))
          ∙ append_assoc done (head ++ xs) rest
          ∙ ap (λ ys. done ++ ys) (append_assoc head xs rest)) in
    let size = pop_size start (length xs) done (xs ++ rest) (omega (arith, l)) (omega (arith, l)) in
    let n = length-append (done ++ head) xs in
    let m = length-append done head in
    let k = length-be_bytes 8 (length xs) in
    (
      λ some_left.
          let r =
            pop_front-halfway start (done ++ head) xs rest some_left (omega (arith, l, n, m, k)) in
          (ap pop_octets whole ∙ ap pop_sized size ∙ r ∙ rw (append_assoc done head xs) refl),
      λ nothing.
          let e = check_length-halfway (length xs) start (done ++ head) (xs ++ rest) in
          (ap (λ o. (pop_octets o).0) whole
            ∙ ap (λ o. (pop_sized o).0) size
            ∙ rw (e, nothing, pop_front) refl),
    )
