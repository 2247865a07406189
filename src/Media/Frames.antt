-- ===== src/Media/Frames.antt =====
-- util/base.h: AVFrameWrapper, which owns an AVFrame.
pub mod Ownership
pub mod Lifetimes
use live_streaming.Base.{
  ℕ, suc, Bool, true, false, ◌==◌, if◌then◌else◌, List, [], ◌∷◌, Option, none, some,
}
use live_streaming.Result.{Result, ok, throws, faults, ◌>>=◌}

-- The pointer that each wrapper holds, named by the order of construction, and which pointers are to
-- frames that are allocated and not freed. A destroyed wrapper holds none, as an empty one.
pub record Memory : Type 0 where
  pub count : ℕ
  pub frame : ℕ → Option ℕ
  pub live : ℕ → Bool

abbrev pub new_memory : Memory
new_memory = record { count = 0; frame = λ i. none; live = λ p. false }

-- A constructor makes the next wrapper: the empty one, one from what av_frame_alloc returns, one from
-- a frame of FFmpeg's own (false: from a null pointer), a copy, one that is moved from; then the two
-- assignments, the target first, and the destructor.
pub data Event : Type 0 where
  construct adopt : Event
  borrow : Bool → Event
  copy move : ℕ → Event
  assign_copy assign_move : ℕ → ℕ → Event
  destroy : ℕ → Event

module _ {V : Type 0} where
  unfoldable pub set : ℕ → V → (ℕ → V) → ℕ → V
  set i v f j = if i == j then v else f j

unfoldable pub give : ℕ → ℕ → Memory → Memory
unfolding set
give i p m = record m { frame = set i (some p) m.frame; live = set p true m.live }

unfoldable pub release : ℕ → ℕ → Memory → Memory
unfolding set
release i p m = record m { frame = set i none m.frame; live = set p false m.live }

-- frame = rhs.frame; rhs.frame = nullptr.
unfoldable pub transfer : ℕ → ℕ → Memory → Memory
unfolding set
transfer i j m = record m { frame = set j none (set i (m.frame j) m.frame) }

unfoldable pub grow : Memory → Memory
grow m = record m { count = suc m.count }

-- av_frame_free(&frame): a null pointer is left alone.
unfoldable pub free : ℕ → Memory → Result Memory
unfolding release
free i m = elim (m.frame i) [
  | none ↦ ok m
  | some p ↦ if m.live p then ok (release i p m) else faults
]

-- FFmpeg reads or writes the frame.
unfoldable pub use_frame : ℕ → Memory → Result Memory
use_frame i m = elim (m.frame i) [ none ↦ faults | some p ↦ if m.live p then ok m else faults ]

-- av_frame_ref(frame, rhs.frame), with undefined behaviour for a null pointer.
unfoldable pub refer : ℕ → ℕ → Memory → Result Memory
unfolding use_frame
refer i j m = use_frame i m >>= use_frame j

module _ (av_frame_alloc : (ℕ → Bool) → Option ℕ) where
  -- A throw of std::string if there is no memory.
  unfoldable pub allocate : ℕ → Memory → Result Memory
  unfolding give
  allocate i m = elim (av_frame_alloc m.live) [ none ↦ throws | some p ↦ ok (give i p m) ]

  -- The copy constructor.
  unfoldable pub copy_frame : ℕ → Memory → Result Memory
  unfolding allocate refer grow
  copy_frame j m = elim (m.frame j) [
    | none ↦ ok (grow m)
    | some q ↦ allocate m.count (grow m) >>= refer m.count j
  ]

  -- The copying operator=; av_frame_unref(frame) comes before av_frame_ref.
  unfoldable pub assign : ℕ → ℕ → Memory → Result Memory
  unfolding allocate refer use_frame
  assign i j m =
      elim (m.frame i) [ none ↦ allocate i m | some p ↦ ok m ] >>= use_frame i >>= refer i j

  unfoldable pub step : Event → Memory → Result Memory
  unfolding grow give allocate copy_frame transfer assign free
  step construct m = ok (grow m)
  step adopt m = elim (av_frame_alloc m.live) [
    | none ↦ ok (grow m)
    | some p ↦ ok (grow (give m.count p m))
  ]
  step (borrow false) m = ok (grow m)
  step (borrow true) m = allocate m.count (grow m)
  step (copy j) m = copy_frame j m
  step (move j) m = ok (transfer m.count j (grow m))
  step (assign_copy i j) m = assign i j m
  step (assign_move i j) m = free i m >>= (λ (n : Memory). ok (transfer i j n))
  step (destroy i) m = free i m

  unfoldable pub steps : List Event → Memory → Result Memory
  unfolding step
  steps [] m = ok m
  steps (e ∷ es) m = step e m >>= steps es
