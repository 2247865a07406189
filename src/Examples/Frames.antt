-- ===== src/Examples/Frames.antt =====
-- Wrappers of frames, as in util/base.h.
use live_streaming.Base.{
  ℕ, ◌≡◌, refl, Bool, false, List, [], ◌∷◌, Option, none, some, if◌then◌else◌, arith,
}
use live_streaming.Media.Frames.{
  Event, new_memory, adopt, assign_copy, assign_move, destroy, construct, steps, step, set, free,
  give, assign, refer, use_frame, transfer, grow,
}
use live_streaming.Media.Frames.Lifetimes.{IsSafe, steps-IsSafe}

-- Memory for one frame.
abbrev one_frame : (ℕ → Bool) → Option ℕ
one_frame live = if live 7 then none else some 7

one_frame-fresh : (live : ℕ → Bool) (p : ℕ) → one_frame live ≡ some p → live p ≡ false
one_frame-fresh live p e = grind arith

abbrev history : List Event
history = construct ∷ adopt ∷ assign_move 0 1 ∷ destroy 1 ∷ assign_copy 0 0 ∷ destroy 0 ∷ []

steps-IsSafe_example : IsSafe one_frame (steps one_frame history new_memory)
unfolding step free transfer assign use_frame refer grow give set
steps-IsSafe_example =
    steps-IsSafe one_frame one_frame-fresh history
      (tt, (tt, (omega arith, (tt, ((omega arith, (7, refl)), (tt, tt))))))
