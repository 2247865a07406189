-- ===== src/Media/Frames/Lifetimes.antt =====
-- No frame is freed twice, used after it was freed, or lost: util/base.h.
use live_streaming.Base.{
  ℕ, ◌<◌, ◌≡◌, refl, Bool, true, false, List, [], ◌∷◌, Option, none, some, arith, ◌⊎◌, inl, inr,
  Option-cases,
}
use live_streaming.Result.{Result, ok, throws, aborts, faults, exhausted, ◌>>=◌}
use live_streaming.Media.Frames.{
  Memory, new_memory, Event, construct, adopt, borrow, copy, move, assign_copy, assign_move,
  destroy, give, grow, allocate, copy_frame, assign, step, steps,
}
use live_streaming.Media.Frames.Ownership.{
  IsOwned, set_same, grow-IsOwned, give-IsOwned, transfer-IsOwned, free-Empties, use_frame-runs,
  refer-give, refer-runs,
}

-- An assignment is to a wrapper that was constructed, and a copying one is not from an empty wrapper.
abbrev pub IsAllowed : Event → Memory → Type 0
IsAllowed (assign_copy i j) m = (i < m.count) × ((q : ℕ) × (m.frame j ≡ some q))
IsAllowed (assign_move i j) m = i < m.count
IsAllowed construct m = Unit
IsAllowed adopt m = Unit
IsAllowed (borrow given) m = Unit
IsAllowed (copy j) m = Unit
IsAllowed (move j) m = Unit
IsAllowed (destroy i) m = Unit

new_memory-IsOwned : IsOwned new_memory
new_memory-IsOwned = record {
  alive = λ i p e. ground arith;
  single = λ i j p e f. ground arith;
  held = λ p e. ground arith;
  unused = λ i l. refl;
}

-- The property holds of what a call returns, if it returns.
abbrev pub Leaves : (Memory → Type 0) → Result Memory → Type 0
Leaves P (ok n) = P n
Leaves P throws = Unit
Leaves P aborts = Unit
Leaves P faults = Unit
Leaves P exhausted = Unit

module _ (av_frame_alloc : (ℕ → Bool) → Option ℕ) where
  -- What a call leaves if it neither frees a frame twice nor uses one that is not allocated: memory in
  -- which each frame has one owner, or an exception because av_frame_alloc found no memory.
  abbrev pub IsSafe : Result Memory → Type 0
  IsSafe (ok m) = IsOwned m
  IsSafe throws = (live : ℕ → Bool) × (av_frame_alloc live ≡ none)
  IsSafe aborts = ⊥
  IsSafe faults = ⊥
  IsSafe exhausted = ⊥

  -- Each event is allowed where it happens.
  abbrev pub AreAllowed : List Event → Memory → Type 0
  AreAllowed [] m = Unit
  AreAllowed (e ∷ es) m = IsAllowed e m × Leaves (AreAllowed es) (step av_frame_alloc e m)

module _ (av_frame_alloc : (ℕ → Bool) → Option ℕ)
    (fresh : (live : ℕ → Bool) (p : ℕ) → av_frame_alloc live ≡ some p → live p ≡ false) where
  -- There was no memory, or the wrapper holds a new frame.
  allocate-cases :
      (i : ℕ) (m : Memory)
      → IsOwned m
      → m.frame i ≡ none
      → i < m.count
      → ((av_frame_alloc m.live ≡ none) × (allocate av_frame_alloc i m ≡ throws))
        ⊎ ((p : ℕ) × (allocate av_frame_alloc i m ≡ ok (give i p m)) × IsOwned (give i p m))
  unfolding allocate
  allocate-cases i m o n l = elim (Option-cases (av_frame_alloc m.live)) [
    | inl e ↦ inl (e, rw (allocate, e) refl)
    | inr (p, e) ↦ inr (p, rw (allocate, e) refl, give-IsOwned i p m o n (fresh m.live p e) l)
  ]

  copy_frame-IsSafe :
      (j : ℕ) (m : Memory) → IsOwned m → IsSafe av_frame_alloc (copy_frame av_frame_alloc j m)
  unfolding copy_frame grow
  copy_frame-IsSafe j m o = elim (Option-cases (m.frame j)) [
    | inl e ↦ rw (copy_frame, e) (grow-IsOwned m o)
    | inr (q, e) ↦
        elim (allocate-cases m.count (grow m) (grow-IsOwned m o) (o.unused m.count (omega arith))
          (omega arith)) [
            | inl (none_left, t) ↦ rw (copy_frame, e) (rw t ((grow m).live, none_left))
            | inr (p, t, w) ↦
                rw (copy_frame, e)
                  (rw t
                    (rw (refer-give m.count j p q (grow m) w (o.unused m.count (omega arith)) e) w))
          ]
  ]

  assign-IsSafe :
      (i j q : ℕ) (m : Memory)
      → IsOwned m
      → i < m.count
      → m.frame j ≡ some q
      → IsSafe av_frame_alloc (assign av_frame_alloc i j m)
  unfolding assign give
  assign-IsSafe i j q m o l f = elim (Option-cases (m.frame i)) [
    | inl e ↦ elim (allocate-cases i m o e l) [
      | inl (none_left, t) ↦ rw (assign, e) (rw t (m.live, none_left))
      | inr (p, t, w) ↦
          let held : (give i p m).frame i ≡ some p = set_same i (some p) m.frame in
          rw (assign, e)
            (rw t (rw (use_frame-runs i p (give i p m) w held) (rw (refer-give i j p q m w e f) w)))
    ]
    | inr (p, e) ↦
        rw (assign, e) (rw (use_frame-runs i p m o e) (rw (refer-runs i j p q m o e f) o))
  ]

  step-IsSafe :
      (e : Event) (m : Memory)
      → IsOwned m
      → IsAllowed e m
      → IsSafe av_frame_alloc (step av_frame_alloc e m)
  unfolding step grow
  step-IsSafe construct m o a = grow-IsOwned m o
  step-IsSafe adopt m o a = elim (Option-cases (av_frame_alloc m.live)) [
    | inl e ↦ rw (step, e) (grow-IsOwned m o)
    | inr (p, e) ↦
        rw (step, e)
          (give-IsOwned m.count p (grow m) (grow-IsOwned m o) (o.unused m.count (omega arith))
            (fresh m.live p e) (omega arith))
  ]
  step-IsSafe (borrow false) m o a = grow-IsOwned m o
  step-IsSafe (borrow true) m o a =
      elim (allocate-cases m.count (grow m) (grow-IsOwned m o) (o.unused m.count (omega arith))
        (omega arith)) [
          | inl (none_left, t) ↦ rw t ((grow m).live, none_left)
          | inr (p, t, w) ↦ rw t w
        ]
  step-IsSafe (copy j) m o a = copy_frame-IsSafe j m o
  step-IsSafe (move j) m o a =
      transfer-IsOwned m.count j (grow m) (grow-IsOwned m o) (o.unused m.count (omega arith))
        (omega arith)
  step-IsSafe (assign_copy i j) m o a = assign-IsSafe i j a.1.0 m o a.0 a.1.1
  step-IsSafe (assign_move i j) m o a =
      let (n, e, w, empty, same) = free-Empties i m o in
      rw e (transfer-IsOwned i j n w empty (rw same a))
  step-IsSafe (destroy i) m o a = let (n, e, w, empty, same) = free-Empties i m o in rw e w

  bind-IsSafe :
      (r : Result Memory) (P : Memory → Type 0) (f : Memory → Result Memory)
      → IsSafe av_frame_alloc r
      → Leaves P r
      → ((n : Memory) → IsOwned n → P n → IsSafe av_frame_alloc (f n))
      → IsSafe av_frame_alloc (r >>= f)
  bind-IsSafe (ok n) P f h p next = next n h p
  bind-IsSafe throws P f h p next = h
  bind-IsSafe aborts P f h p next = h
  bind-IsSafe faults P f h p next = h
  bind-IsSafe exhausted P f h p next = h

  history-IsSafe :
      (es : List Event) (m : Memory)
      → IsOwned m
      → AreAllowed av_frame_alloc es m
      → IsSafe av_frame_alloc (steps av_frame_alloc es m)
  unfolding steps
  history-IsSafe [] m o a = o
  history-IsSafe (e ∷ es) m o a =
      bind-IsSafe (step av_frame_alloc e m) (AreAllowed av_frame_alloc es) (steps av_frame_alloc es)
        (step-IsSafe e m o a.0) a.1 (history-IsSafe es)

  -- Whatever wrappers are constructed, copied, moved, assigned and destroyed, in whatever order: no
  -- frame is freed twice or used after it was freed, no two wrappers hold the same frame, and each
  -- frame that is still allocated is held by one, or else the memory ran out. This is so if every
  -- assignment is to a wrapper that was constructed, and no copying assignment is from an empty one;
  -- av_frame_alloc returns pointers that are not in use.
  pub steps-IsSafe :
      (es : List Event)
      → AreAllowed av_frame_alloc es new_memory
      → IsSafe av_frame_alloc (steps av_frame_alloc es new_memory)
  steps-IsSafe es a = history-IsSafe es new_memory new_memory-IsOwned a
