-- ===== src/Media/Coding.antt =====
-- The calls of FFmpeg's decoders, encoders and filters in util/decoder.cc, util/muxer.cc and
-- util/filter.cc: one thing goes in, and what is ready is taken out until nothing is.
use live_streaming.Base.{
  ℕ, suc, zero, ◌<◌, ◌≡◌, refl, subst, Bool, true, false, if◌then◌else◌, List, [], ◌∷◌, length,
  Option, arith,
}
use live_streaming.Result.{Result, ok, exhausted, ◌>>=◌, bind_ok, ok_injective}

-- What a call that takes something out says: AVERROR(EAGAIN) and AVERROR_EOF are `again`, the other
-- errors `failed`.
pub data Received (Output : Type 0) : Type 0 where
  received : Output → Received Output
  again failed : Received Output

-- A codec or a filter as the program sees it; `send` is `none` where it returns an error.
pub record Coder (State Input Output : Type 0) : Type 0 where
  pub send : State → Input → Option State
  pub receive : State → Received Output × State

module _ {State Input Output Acc : Type 0} (c : Coder State Input Output) where
  -- The loop that takes out what is ready, with what it does to each: whether it went well, and what
  -- was collected.
  unfoldable pub drain :
      ℕ → (Output → Acc → Result (Bool × Acc)) → State → Acc → Result (Bool × Acc × State)
  drain zero step s acc = exhausted
  drain (suc fuel) step s acc =
      let (r, s') = c.receive s in
      elim r [
        | again ↦ ok (true, acc, s')
        | failed ↦ ok (false, acc, s')
        | received x ↦ (do
          (good, acc') ← step x acc
          if good then drain fuel step s' acc' else ok (false, acc', s'))
      ]

module _ {Output Acc : Type 0} where
  -- What is done to a list of outputs, up to the first where it goes wrong; `end` says how the list
  -- ends.
  unfoldable pub run_steps :
      (Output → Acc → Result (Bool × Acc)) → List Output → Bool → Acc → Result (Bool × Acc)
  run_steps step [] end acc = ok (end, acc)
  run_steps step (x ∷ xs) end acc = do
    (good, acc') ← step x acc
    if good then run_steps step xs end acc' else ok (false, acc')

module _ {State Input Output : Type 0} (c : Coder State Input Output) where
  -- From the state on these outputs are ready; then the coder says `again` (true) or fails (false).
  pub data Readies : State → List Output → Bool → Type 0 where
    pauses : {s s' : State} → c.receive s ≡ (again, s') → Readies s [] true
    breaks : {s s' : State} → c.receive s ≡ (failed, s') → Readies s [] false
    readies :
        {s s' : State} {x : Output} {xs : List Output} {end : Bool}
        → c.receive s ≡ (received x, s')
        → Readies s' xs end
        → Readies s (x ∷ xs) end

module _ {State Input Output Acc : Type 0} (c : Coder State Input Output) where
  pub record Drained (good : Bool) (acc : Acc) (out : Result (Bool × Acc × State)) : Type 0 where
    pub next : State
    pub runs : out ≡ ok (good, acc, next)

  again-Drained :
      (fuel : ℕ) (step : Output → Acc → Result (Bool × Acc)) (s t : State) (acc acc' : Acc)
      (good : Bool)
      → c.receive s ≡ (again, t)
      → ◌≡◌ {A = Result (Bool × Acc)} (ok (true, acc)) (ok (good, acc'))
      → Drained good acc' (drain c (suc fuel) step s acc)
  unfolding drain
  again-Drained fuel step s t acc acc' good h e =
      subst (λ (r : Bool × Acc). Drained r.0 r.1 (drain c (suc fuel) step s acc)) (ok_injective e)
        (record { next = t; runs = rw (drain, h) (rw h refl) })

  failed-Drained :
      (fuel : ℕ) (step : Output → Acc → Result (Bool × Acc)) (s t : State) (acc acc' : Acc)
      (good : Bool)
      → c.receive s ≡ (failed, t)
      → ◌≡◌ {A = Result (Bool × Acc)} (ok (false, acc)) (ok (good, acc'))
      → Drained good acc' (drain c (suc fuel) step s acc)
  unfolding drain
  failed-Drained fuel step s t acc acc' good h e =
      subst (λ (r : Bool × Acc). Drained r.0 r.1 (drain c (suc fuel) step s acc)) (ok_injective e)
        (record { next = t; runs = rw (drain, h) (rw h refl) })

  stepped-Drained :
      (well : Bool) (acc1 : Acc) (fuel : ℕ) (step : Output → Acc → Result (Bool × Acc))
      (s t : State) (acc : Acc) (x : Output) (xs : List Output) (end good : Bool) (acc' : Acc)
      → c.receive s ≡ (received x, t)
      → step x acc ≡ ok (well, acc1)
      → ((acc2 : Acc)
          → run_steps step xs end acc2 ≡ ok (good, acc')
          → Drained good acc' (drain c fuel step t acc2))
      → ◌≡◌ {A = Result (Bool × Acc)}
          (if well then run_steps step xs end acc1 else ok (false, acc1))
          (ok (good, acc'))
      → Drained good acc' (drain c (suc fuel) step s acc)
  unfolding drain
  stepped-Drained true acc1 fuel step s t acc x xs end good acc' h g r e =
      let d = r acc1 e in record { next = d.next; runs = rw (drain, h) (rw (h, g) d.runs) }
  stepped-Drained false acc1 fuel step s t acc x xs end good acc' h g r e =
      subst (λ (p : Bool × Acc). Drained p.0 p.1 (drain c (suc fuel) step s acc)) (ok_injective e)
        (record { next = t; runs = rw (drain, h) (rw (h, g) refl) })

  -- With more fuel than there are outputs the loop takes out and handles them all in order, or those
  -- up to the first where the handling goes wrong.
  pub drain-Drained :
      (fuel : ℕ) (step : Output → Acc → Result (Bool × Acc)) (s : State) (acc : Acc)
      (xs : List Output) (end good : Bool) (acc' : Acc)
      → Readies c s xs end
      → length xs < fuel
      → run_steps step xs end acc ≡ ok (good, acc')
      → Drained good acc' (drain c fuel step s acc)
  unfolding drain run_steps
  drain-Drained zero step s acc xs end good acc' r f e = absurd (omega arith)
  drain-Drained (suc fuel) step s acc [] end good acc' (pauses {s' = t} h) f e =
      again-Drained fuel step s t acc acc' good h e
  drain-Drained (suc fuel) step s acc [] end good acc' (breaks {s' = t} h) f e =
      failed-Drained fuel step s t acc acc' good h e
  drain-Drained (suc fuel) step s acc (x ∷ xs) end good acc' (readies {s' = t} h r) f e =
      let (a, stepped, rest) = bind_ok (step x acc) _ _ e in
      stepped-Drained a.0 a.1 fuel step s t acc x xs end good acc' h stepped
        (λ acc2 e2. drain-Drained fuel step t acc2 xs end good acc' r (omega arith) e2) rest
