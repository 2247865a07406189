-- ===== src/Media/Frames/Ownership.antt =====
-- Each frame belongs to one wrapper, and what av_frame_free and av_frame_ref then do: util/base.h.
use live_streaming.Base.{
  ℕ, ◌≤◌, ◌<◌, ◌≡◌, refl, sym, ap, ◌∙◌, true, false, none, some, arith, ◌⊎◌, inl, inr, Option-cases,
  subst, if_true,
}
use live_streaming.Result.{ok, faults}
use live_streaming.Media.Frames.{Memory, set, give, release, transfer, grow, free, use_frame, refer}

-- What wrappers hold is allocated, no two hold the same, and what is allocated is held by one.
pub record IsOwned (m : Memory) : Type 0 where
  pub alive : (i p : ℕ) → m.frame i ≡ some p → m.live p ≡ true
  pub single : (i j p : ℕ) → m.frame i ≡ some p → m.frame j ≡ some p → i ≡ j
  pub held : (p : ℕ) → m.live p ≡ true → (i : ℕ) × (m.frame i ≡ some p)
  pub unused : (i : ℕ) → m.count ≤ i → m.frame i ≡ none

module _ {V : Type 0} (i : ℕ) (v : V) (f : ℕ → V) where
  pub set_same : set i v f i ≡ v
  unfolding set
  set_same = grind arith

  set_other : (j : ℕ) → ¬ (i ≡ j) → set i v f j ≡ f j
  unfolding set
  set_other j n = grind arith

  set_cases : (j : ℕ) → ((i ≡ j) × (set i v f j ≡ v)) ⊎ ((¬ (i ≡ j)) × (set i v f j ≡ f j))
  unfolding set
  set_cases j = ground arith

pub grow-IsOwned : (m : Memory) → IsOwned m → IsOwned (grow m)
unfolding grow
grow-IsOwned m o = record {
  alive = o.alive;
  single = o.single;
  held = o.held;
  unused = λ i l. o.unused i (omega (arith, l));
}

pub give-IsOwned :
    (i p : ℕ) (m : Memory)
    → IsOwned m
    → m.frame i ≡ none
    → m.live p ≡ false
    → i < m.count
    → IsOwned (give i p m)
unfolding give
give-IsOwned i p m o n f l = record {
  alive = λ k q e.
      let a = set_cases i (some p) m.frame k in
      let b = set_cases p true m.live q in let c = o.alive k q in grind arith;
  single = λ k h q e g.
      let a = set_cases i (some p) m.frame k in
      let b = set_cases i (some p) m.frame h in
      let c = o.single k h q in let d = o.alive k q in let x = o.alive h q in grind arith;
  held = λ q e. elim (set_cases p true m.live q) [
    | inl (a, b) ↦ (i, set_same i (some p) m.frame ∙ ap some a)
    | inr (a, b) ↦
        let w = o.held q (sym b ∙ e) in
        let c = set_cases i (some p) m.frame w.0 in (w.0, grind arith)
  ];
  unused = λ k h. let a = set_cases i (some p) m.frame k in let b = o.unused k h in grind arith;
}

release-IsOwned : (i p : ℕ) (m : Memory) → IsOwned m → m.frame i ≡ some p → IsOwned (release i p m)
unfolding release
release-IsOwned i p m o n = record {
  alive = λ k q e.
      let a = set_cases i none m.frame k in
      let b = set_cases p false m.live q in
      let c = o.alive k q in let d = o.single i k p n in grind arith;
  single = λ k h q e g.
      let a = set_cases i none m.frame k in
      let b = set_cases i none m.frame h in let c = o.single k h q in grind arith;
  held = λ q e.
      let b = set_cases p false m.live q in
      let w = o.held q (grind arith) in let c = set_cases i none m.frame w.0 in (w.0, grind arith);
  unused = λ k h. let a = set_cases i none m.frame k in let b = o.unused k h in grind arith;
}

pub transfer-IsOwned :
    (i j : ℕ) (m : Memory) → IsOwned m → m.frame i ≡ none → i < m.count → IsOwned (transfer i j m)
unfolding transfer
transfer-IsOwned i j m o n l = record {
  alive = λ k q e.
      let a = set_cases j none (set i (m.frame j) m.frame) k in
      let b = set_cases i (m.frame j) m.frame k in
      let c = o.alive k q in let d = o.alive j q in grind arith;
  single = λ k h q e g.
      let a = set_cases j none (set i (m.frame j) m.frame) k in
      let b = set_cases i (m.frame j) m.frame k in
      let c = set_cases j none (set i (m.frame j) m.frame) h in
      let d = set_cases i (m.frame j) m.frame h in
      let x = o.single k h q in let y = o.single j h q in let z = o.single k j q in grind arith;
  held = λ q e.
      let w = o.held q e in
      elim (set_cases j none (set i (m.frame j) m.frame) w.0) [
        | inl (a, b) ↦
            let c = set_cases j none (set i (m.frame j) m.frame) i in
            let d = set_same i (m.frame j) m.frame in
            let v : m.frame j ≡ some q = subst (λ (k : ℕ). m.frame k ≡ some q) (sym a) w.1 in
            (i, grind arith)
        | inr (a, b) ↦ let d = set_cases i (m.frame j) m.frame w.0 in (w.0, grind arith)
      ];
  unused = λ k h.
      let a = set_cases j none (set i (m.frame j) m.frame) k in
      let b = set_cases i (m.frame j) m.frame k in let c = o.unused k h in grind arith;
}

-- The wrapper's frame is freed, and the others are as they were.
pub free-Empties :
    (i : ℕ) (m : Memory)
    → IsOwned m
    → (n : Memory) × (free i m ≡ ok n) × IsOwned n × (n.frame i ≡ none) × (n.count ≡ m.count)
unfolding free release
free-Empties i m o = elim (Option-cases (m.frame i)) [
  | inl e ↦ (m, rw (free, e) refl, o, e, refl)
  | inr (p, e) ↦ (
    release i p m,
    rw (free, e) (if_true (m.live p) (ok (release i p m)) faults (o.alive i p e)),
    release-IsOwned i p m o e,
    set_same i none m.frame,
    refl,
  )
]

pub use_frame-runs : (i p : ℕ) (m : Memory) → IsOwned m → m.frame i ≡ some p → use_frame i m ≡ ok m
unfolding use_frame
use_frame-runs i p m o e = rw (use_frame, e) (if_true (m.live p) (ok m) faults (o.alive i p e))

pub refer-runs :
    (i j p q : ℕ) (m : Memory)
    → IsOwned m
    → m.frame i ≡ some p
    → m.frame j ≡ some q
    → refer i j m ≡ ok m
unfolding refer
refer-runs i j p q m o e f = rw (use_frame-runs i p m o e) (use_frame-runs j q m o f)

pub refer-give :
    (i j p q : ℕ) (m : Memory)
    → IsOwned (give i p m)
    → m.frame i ≡ none
    → m.frame j ≡ some q
    → refer i j (give i p m) ≡ ok (give i p m)
unfolding give
refer-give i j p q m o n e =
    let c = set_cases i (some p) m.frame j in
    refer-runs i j p q (give i p m) o (set_same i (some p) m.frame) (grind arith)
