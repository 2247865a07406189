-- ===== src/Stream/Codec.antt =====
-- What a writer appends and what a reader takes off, as statements that compose along a chain of
-- `<<` or `>>`.
use native.Mathlib.Nat.{
  pow-suc, div-add-mod, mod-lt, mod-eq_of_lt, mul-add-mod_self_right, mul-le-mul_right,
  div-eq_of_lt,
}
use live_streaming.Base.{
  ℕ, ◌+◌, ◌-◌, ◌*◌, ◌/◌, ◌%◌, ◌^◌, ◌<◌, ◌≤◌, ◌≡◌, refl, ap, sym, ◌∙◌, zero, suc, List, [], ◌∷◌,
  ◌++◌, length, take, drop, ltb, arith, length-append, length-drop, take-length_append,
  drop-length_append, drop-drop, append_assoc, append-nil, if◌then◌else◌, All, IsBytes, subst,
  false, length-append_bytes,
}
use live_streaming.Result.{ok}
use live_streaming.Stream.{
  ByteStream, Stream, be_value, be_bytes, pop_bytes, push_bytes, pop_raw, push_raw, pop, pure,
  ◌>>=◌, ◌>>◌,
}

abbrev pub unread : ByteStream → List ℕ
unread bs = drop bs.head bs.bytes

abbrev pub advance : ℕ → ByteStream → ByteStream
advance n bs = record bs { head = bs.head + n }

abbrev pub append : ByteStream → List ℕ → ByteStream
append bs xs = record bs { bytes = bs.bytes ++ xs }

-- The writer appends `xs`, and does nothing else.
pub record Encodes (w : Stream (Unit {0})) (xs : List ℕ) : Type 0 where
  pub run : (bs : ByteStream) → w bs ≡ ok (tt, append bs xs)

-- Where `xs` comes next, the reader returns `a` and moves just past it.
pub record Decodes {ℓ} {A : Type ℓ} (r : Stream A) (xs : List ℕ) (a : A) : Type ℓ where
  pub run :
      (bs : ByteStream) (rest : List ℕ)
      → unread bs ≡ xs ++ rest
      → r bs ≡ ok (a, advance (length xs) bs)

-- A writer and a reader agree on a value: what the one appends the other takes off.
abbrev pub RoundTrips {ℓ} : {A : Type ℓ} → Stream (Unit {0}) → Stream A → A → Type ℓ
RoundTrips w r a = (xs : List ℕ) × Encodes w xs × Decodes r xs a

be_value-append :
    (acc : ℕ) (xs ys : List ℕ) → be_value acc (xs ++ ys) ≡ be_value (be_value acc xs) ys
unfolding be_value
be_value-append acc [] ys = refl
be_value-append acc (x ∷ xs) ys = be_value-append (acc * 256 + x) xs ys

pub length-be_bytes : (size v : ℕ) → length (be_bytes size v) ≡ size
unfolding be_bytes
length-be_bytes zero v = refl
length-be_bytes (suc size) v = ap suc (length-be_bytes size v)

pub be_bytes-IsBytes : (size v : ℕ) → IsBytes (be_bytes size v)
unfolding be_bytes
be_bytes-IsBytes zero v = tt
be_bytes-IsBytes (suc size) v = (omega arith, be_bytes-IsBytes size v)

mod_of_split : (q b c v : ℕ) → v ≡ q * b + c → c < b → v % b ≡ c
mod_of_split q b c v e h = rw (e, mul-add-mod_self_right q b c) (mod-eq_of_lt h)

-- The next lower byte of a number that keeps its low end.
split_byte : (p v : ℕ) → 0 < p → v % (p * 256) ≡ v / p % 256 * p + v % p
split_byte p v h =
    mod_of_split (v / p / 256) (p * 256) (v / p % 256 * p + v % p) v
      (omega (arith, div-add-mod v p, ap (λ (t : ℕ). p * t) (div-add-mod (v / p) 256)))
      (let d : v / p % 256 + 1 ≤ 256 = omega arith in
        omega (arith, mod-lt v h, mul-le-mul_right p d))

pow_pos : (n : ℕ) → 0 < 256 ^ n
pow_pos zero = omega arith
pow_pos (suc n) = rw (pow-suc 256 n) (omega (arith, pow_pos n))

pub be_value-be_bytes :
    (size acc v : ℕ) → be_value acc (be_bytes size v) ≡ acc * 256 ^ size + v % 256 ^ size
unfolding be_value be_bytes
be_value-be_bytes zero acc v = omega arith
be_value-be_bytes (suc size) acc v =
    be_value-be_bytes size (acc * 256 + v / 256 ^ size % 256) v
    ∙ (rw pow-suc (omega (arith, split_byte (256 ^ size) v (pow_pos size))))

pub be_value-be_bytes_lt : (size v : ℕ) → v < 256 ^ size → be_value 0 (be_bytes size v) ≡ v
be_value-be_bytes_lt size v h = rw (be_value-be_bytes size 0 v, mod-eq_of_lt h) (omega arith)

pub length-unread : (bs : ByteStream) → length (unread bs) ≡ length bs.bytes - bs.head
length-unread bs = length-drop bs.head bs.bytes

-- The bytes at hand are enough, so a reader of them does not throw.
pub enough :
    (bs : ByteStream) (xs rest : List ℕ)
    → unread bs ≡ xs ++ rest
    → ltb (length bs.bytes - bs.head) (length xs) ≡ false
enough bs xs rest e = ground (arith, sym (length-unread bs) ∙ ap length e, length-append xs rest)

pub unread-advance :
    (bs : ByteStream) (xs rest : List ℕ)
    → unread bs ≡ xs ++ rest
    → unread (advance (length xs) bs) ≡ rest
unread-advance bs xs rest e =
    sym (drop-drop (length xs) bs.head bs.bytes)
    ∙ ap (drop (length xs)) e
    ∙ drop-length_append xs rest

pub pop_raw-Decodes : (xs : List ℕ) → Decodes (pop_raw (length xs)) xs xs
unfolding pop_raw
pop_raw-Decodes xs = record {
  run = λ bs rest e. rw (enough bs xs rest e, e, take-length_append xs rest);
}

pub push_raw-Encodes : (xs : List ℕ) → Encodes (push_raw xs) xs
unfolding push_raw
push_raw-Encodes xs = record { run = λ bs. refl }

pub push_bytes-Encodes : (size v : ℕ) → Encodes (push_bytes size v) (be_bytes size v)
unfolding push_bytes
push_bytes-Encodes size v = record { run = λ bs. refl }

module _ (size old v : ℕ) (h : v < 256 ^ size) where
  -- Only the low bytes of the object change.
  pub pop_bytes-Decodes_over :
      Decodes (pop_bytes size old) (be_bytes size v) (old / 256 ^ size * 256 ^ size + v)
  unfolding pop_bytes
  pop_bytes-Decodes_over = record {
    run = λ bs rest e.
        let n = length-be_bytes size v in
        let t : take size (drop bs.head bs.bytes) ≡ be_bytes size v = rw e (
          subst (λ (k : ℕ). take k (be_bytes size v ++ rest) ≡ be_bytes size v) n
            (take-length_append (be_bytes size v) rest)) in
        let f : ltb (length bs.bytes - bs.head) size ≡ false =
          subst (λ (k : ℕ). ltb (length bs.bytes - bs.head) k ≡ false) n
            (enough bs (be_bytes size v) rest e) in
        rw (f, t, be_value-be_bytes_lt size v h, n);
  }

  pub pop_bytes-Decodes : old < 256 ^ size → Decodes (pop_bytes size old) (be_bytes size v) v
  pop_bytes-Decodes ho =
      subst (Decodes (pop_bytes size old) (be_bytes size v)) (rw (div-eq_of_lt ho) (omega arith))
        pop_bytes-Decodes_over

pub pop-Decodes : (size v : ℕ) → v < 256 ^ size → Decodes (pop size) (be_bytes size v) v
unfolding pop
pop-Decodes size v h = pop_bytes-Decodes size 0 v h (pow_pos size)

pub pure-Encodes : Encodes (pure tt) []
unfolding pure
pure-Encodes = record { run = λ bs. rw (append-nil bs.bytes) }

pub pure-Decodes {ℓ} : {A : Type ℓ} (a : A) → Decodes (pure a) [] a
unfolding pure
pure-Decodes a = record {
  run = λ bs rest e.
      let z : bs.head ≡ bs.head + 0 = omega arith in
      ap (λ (k : ℕ). ok (a, record bs { head = k })) z;
}

pub Encodes-then :
    {v w : Stream (Unit {0})} {xs ys : List ℕ}
    → Encodes v xs
    → Encodes w ys
    → Encodes (v >> w) (xs ++ ys)
unfolding ◌>>=◌
Encodes-then {v} {w} {xs} {ys} p q = record {
  run = λ bs. rw (p.run bs, q.run (append bs xs), append_assoc bs.bytes xs ys);
}

pub Decodes-bind {ℓ κ} :
    {A : Type ℓ} {B : Type κ} {r : Stream A} (f : A → Stream B) {xs ys : List ℕ} {a : A} {b : B}
    → Decodes r xs a
    → Decodes (f a) ys b
    → Decodes (r >>= f) (xs ++ ys) b
unfolding ◌>>=◌
Decodes-bind {r} f {xs} {ys} {a} {b} p q = record {
  run = λ bs rest e.
      let e' = e ∙ append_assoc xs ys rest in
      let n : bs.head + length xs + length ys ≡ bs.head + length (xs ++ ys) =
        omega (arith, length-append xs ys) in
      rw
        (
          p.run bs (ys ++ rest) e',
          q.run (advance (length xs) bs) rest (unread-advance bs xs (ys ++ rest) e'),
        )
        (ap (λ (k : ℕ). ok (b, record bs { head = k })) n);
}

pub Encodes-eq : {w : Stream (Unit {0})} {xs ys : List ℕ} → xs ≡ ys → Encodes w xs → Encodes w ys
Encodes-eq {w} e h = subst (Encodes w) e h

pub Decodes-eq {ℓ} :
    {A : Type ℓ} {r : Stream A} {xs ys : List ℕ} {a : A} → xs ≡ ys → Decodes r xs a → Decodes r ys a
Decodes-eq {r} {a} e h = subst (λ zs. Decodes r zs a) e h

-- For `omega`, on the lengths of what is written.
pub ruleset sizes = (arith, length-append_bytes, length-be_bytes)
