-- ===== src/Stream/Shrinking.antt =====
-- Readers that end: they return, having taken at least so many bytes, or they throw.
use live_streaming.Base.{
  ℕ, ◌+◌, ◌-◌, ◌≤◌, length, ltb, Bool-cases, inl, inr, arith, Bool, true, false, if◌then◌else◌,
}
use live_streaming.Result
use live_streaming.Result.{Result, ok, throws}
use live_streaming.Stream.{
  ByteStream, Stream, ◌>>=◌, pure, pop, pop_bytes, pop_raw, remain, discard,
}

pub data Shrinks {ℓ} {A : Type ℓ} (k : ℕ) (bs : ByteStream) : Result (A × ByteStream) → Type ℓ where
  returned : {a : A} {bs' : ByteStream} → remain bs' + k ≤ remain bs → Shrinks k bs (ok (a, bs'))
  thrown : Shrinks k bs throws

-- The reader ends at this stream.
pub record Ends {ℓ} {A : Type ℓ} (k : ℕ) (p : Stream A) (bs : ByteStream) : Type ℓ where
  pub run : Shrinks k bs (p bs)

Shrinks-weaken {ℓ} :
    {A : Type ℓ} {k j : ℕ} {bs : ByteStream} {r : Result (A × ByteStream)}
    → j ≤ k
    → Shrinks k bs r
    → Shrinks j bs r
Shrinks-weaken h (returned p) = returned (omega arith)
Shrinks-weaken h thrown = thrown

Shrinks-bind {ℓ κ} :
    {A : Type ℓ} {B : Type κ} (k j : ℕ) {bs : ByteStream} {r : Result (A × ByteStream)}
    (f : A → Stream B)
    → Shrinks k bs r
    → ((a : A) (bs' : ByteStream) → remain bs' + k ≤ remain bs → Shrinks j bs' (f a bs'))
    → Shrinks (k + j) bs (Result.◌>>=◌ r (λ (a, bs'). f a bs'))
Shrinks-bind {B} k j {bs} f (returned {a} {bs'} h) g = through (g a bs' h)
  where
    through : {r : Result (B × ByteStream)} → Shrinks j bs' r → Shrinks (k + j) bs r
    through (returned e) = returned (omega arith)
    through thrown = thrown
Shrinks-bind k j f thrown g = thrown

module _ {ℓ} {A : Type ℓ} where
  pub Ends-weaken : {k j : ℕ} {p : Stream A} {bs : ByteStream} → j ≤ k → Ends k p bs → Ends j p bs
  Ends-weaken h e = record { run = Shrinks-weaken h e.run }

  pub pure-Ends : (a : A) (bs : ByteStream) → Ends 0 (pure a) bs
  unfolding pure
  pure-Ends a bs = record { run = returned (omega arith) }

  pub throws-Ends : (k : ℕ) (bs : ByteStream) → Ends {A = A} k (λ _. throws) bs
  throws-Ends k bs = record { run = thrown }

  pub Ends-if :
      (b : Bool) {k : ℕ} {bs : ByteStream} {p q : Stream A}
      → Ends k p bs
      → Ends k q bs
      → Ends k (if b then p else q) bs
  Ends-if true h g = h
  Ends-if false h g = g

pub bind-Ends {ℓ κ} :
    {A : Type ℓ} {B : Type κ} {k : ℕ} (j : ℕ) {bs : ByteStream} {p : Stream A} (f : A → Stream B)
    → Ends k p bs
    → ((a : A) (bs' : ByteStream) → remain bs' + k ≤ remain bs → Ends j (f a) bs')
    → Ends (k + j) (p >>= f) bs
unfolding ◌>>=◌
bind-Ends {k} j f h g = record { run = Shrinks-bind k j f h.run (λ a bs' e. (g a bs' e).run) }

pub pop_bytes-Ends : (size old : ℕ) (bs : ByteStream) → Ends size (pop_bytes size old) bs
unfolding pop_bytes remain
pop_bytes-Ends size old bs = elim (Bool-cases (ltb (length bs.bytes - bs.head) size)) [
  | inl e ↦ record { run = rw e thrown }
  | inr e ↦ record { run = rw e (returned (ground arith)) }
]

pub pop-Ends : (size : ℕ) (bs : ByteStream) → Ends size (pop size) bs
unfolding pop
pop-Ends size = pop_bytes-Ends size 0

pub pop_raw-Ends : (size : ℕ) (bs : ByteStream) → Ends size (pop_raw size) bs
unfolding pop_raw remain
pop_raw-Ends size bs = elim (Bool-cases (ltb (length bs.bytes - bs.head) size)) [
  | inl e ↦ record { run = rw e thrown }
  | inr e ↦ record { run = rw e (returned (ground arith)) }
]

pub discard-Ends : (count : ℕ) (bs : ByteStream) → Ends 0 (discard count) bs
unfolding discard remain
discard-Ends count bs = record { run = returned (ground arith) }
