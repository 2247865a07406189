-- ===== src/Net/Octets/Acquiring.antt =====
-- unique and reserve of util/net/octets.h: a block of one's own, with the same bytes.
use live_streaming.Base.{
  ℕ, zero, suc, ◌+◌, ◌*◌, ◌≤◌, ◌<◌, ◌≡◌, ◌≢◌, refl, sym, ap, ◌∙◌, subst, ltb, List, [], length,
  Option, none, some, arith, Bool-cases, inl, inr, Option-cases,
}
use live_streaming.Result.{Result, ok}
use live_streaming.Net.Octets.{
  Rep, Heap, store, create, created, clone, moved, unique, frob_from, frob_size, reserve,
}
use live_streaming.Net.Octets.Blocks.{
  body_of, body_at, IsCounted, Keeps, put_cases, load-there, release-Counted, plus, plus_same,
  plus_other, put_same, put_other, fill-Filled,
}

pub create-IsCounted :
    (own : ℕ → ℕ) (cap : ℕ) (h : Heap)
    → IsCounted own h
    → IsCounted (plus own h.next) (create cap h).1
unfolding create store
create-IsCounted own cap h c =
    let o : Option Rep = some (record { cap = cap; ref = 1; bytes = [] }) in
    let free : own h.next ≡ 0 = c.unused h.next (omega arith) in
    record {
      counted = λ p x f. elim (put_cases h.next o h.cell p) [
        | inl (same, g) ↦
            let t : o ≡ some x = sym g ∙ f in
            let u : x.ref ≡ 1 = ground arith in
            let v = plus_same own h.next in
            subst (λ k. x.ref ≡ plus own h.next k) same (omega (arith, u, v, free))
        | inr (n, g) ↦ c.counted p x (sym g ∙ f) ∙ sym (plus_other own h.next p n)
      ];
      held = λ p x f. elim (put_cases h.next o h.cell p) [
        | inl (same, g) ↦
            subst (λ k. 0 < plus own h.next k) same (omega (arith, plus_same own h.next))
        | inr (n, g) ↦ subst (λ k. 0 < k) (sym (plus_other own h.next p n)) (c.held p x (sym g ∙ f))
      ];
      there = λ p k. elim (put_cases h.next o h.cell p) [
        | inl (same, g) ↦ (record { cap = cap; ref = 1; bytes = [] }, g)
        | inr (n, g) ↦
            let (x, f) = c.there p (subst (λ m. 0 < m) (plus_other own h.next p n) k) in (x, g ∙ f)
      ];
      unused = λ p l. plus_other own h.next p (λ same. omega arith) ∙ c.unused p (omega (arith, l));
      unlocks = c.unlocks;
      fits = λ p x f. elim (put_cases h.next o h.cell p) [
        | inl (same, g) ↦ let t : o ≡ some x = sym g ∙ f in ground arith
        | inr (n, g) ↦ c.fits p x (sym g ∙ f)
      ];
    }

-- A block that nobody else holds, with these bytes and at least this capacity; `own` counts the
-- other pointers, whose blocks keep their bytes.
pub record Acquired (own : ℕ → ℕ) (xs : List ℕ) (need : ℕ) (h : Heap) (r : Result (ℕ × Heap))
    : Type 0 where
  pub block : ℕ
  pub heap : Heap
  pub runs : r ≡ ok (block, heap)
  pub counted : IsCounted (plus own block) heap
  pub alone : own block ≡ 0
  pub rep : Rep
  pub there : heap.cell block ≡ some rep
  pub same : rep.bytes ≡ xs
  pub room : need ≤ rep.cap
  pub kept : Keeps own h heap

pub created-Acquired :
    (own : ℕ → ℕ) (cap : ℕ) (xs : List ℕ) (h : Heap)
    → IsCounted own h
    → length xs ≤ cap
    → Acquired own xs cap h (created cap xs h)
unfolding create store
created-Acquired own cap xs h c l =
    let r : Rep = record { cap = cap; ref = 1; bytes = [] } in
    let f =
      fill-Filled (plus own h.next) h.next xs r (create cap h).1 (create-IsCounted own cap h c)
        (put_same h.next (some r) h.cell) l in
    let free : own h.next ≡ 0 = c.unused h.next (omega arith) in
    record {
      block = h.next;
      heap = f.heap;
      runs = rw f.runs refl;
      counted = f.counted;
      alone = free;
      rep = record r { bytes = xs };
      there = f.cell r (put_same h.next (some r) h.cell);
      same = refl;
      room = omega arith;
      kept = λ p k.
          let apart : h.next ≢ p = λ e. omega (arith, free, subst (λ m. 0 < own m) (sym e) k) in
          f.kept p apart ∙ ap body_of (put_other h.next (some r) h.cell p apart);
    }

body-there :
    (h : Heap) (p : ℕ) (r : Rep)
    → body_at h p ≡ some (r.cap, r.bytes)
    → (x : Rep) × (h.cell p ≡ some x) × (x.bytes ≡ r.bytes) × (x.cap ≡ r.cap)
body-there h p r e = elim (Option-cases (h.cell p)) [
  | inl f ↦ let g : none ≡ some (r.cap, r.bytes) = sym (ap body_of f) ∙ e in cc
  | inr (x, f) ↦
      let g : some (x.cap, x.bytes) ≡ some (r.cap, r.bytes) = sym (ap body_of f) ∙ e in
      (x, f, cc, cc)
]

-- The block that the pointer led to is let go of.
moved-Acquired :
    (own : ℕ → ℕ) (p : ℕ) (xs : List ℕ) (need : ℕ) (h : Heap) (r : Result (ℕ × Heap))
    → Acquired (plus own p) xs need h r
    → Acquired own xs need h (moved p r)
moved-Acquired own p xs need h r a =
    let q = a.block in
    let apart : q ≢ p =
      λ e. let z = subst (λ k. plus own p k ≡ 0) e a.alone in omega (arith, z, plus_same own p) in
    let alone : own q ≡ 0 = sym (plus_other own p q (λ e. apart (sym e))) ∙ a.alone in
    let (h2, runs, counted, kept, next) =
      release-Counted (plus (plus own p) q) (plus own q) p a.heap a.counted (ground arith)
        (ground arith) (λ k n. ground arith) in
    let (x, there, bytes, cap) =
      body-there h2 q a.rep (kept q (ground arith) ∙ ap body_of a.there) in
    record {
      block = q;
      heap = h2;
      runs = rw a.runs (rw runs refl);
      counted = counted;
      alone = alone;
      rep = x;
      there = there;
      same = bytes ∙ a.same;
      room = rw cap a.room;
      kept = λ k l. kept k (ground arith) ∙ a.kept k (ground arith);
    }

weaken-Acquired :
    {own : ℕ → ℕ} {xs : List ℕ} {need need' : ℕ} {h : Heap} {r : Result (ℕ × Heap)}
    → need' ≤ need
    → Acquired own xs need h r
    → Acquired own xs need' h r
weaken-Acquired l a = record {
  block = a.block;
  heap = a.heap;
  runs = a.runs;
  counted = a.counted;
  alone = a.alone;
  rep = a.rep;
  there = a.there;
  same = a.same;
  room = omega (arith, l, a.room);
  kept = a.kept;
}

frob_from-le : (fuel size tmp : ℕ) → 0 < tmp → size ≤ fuel + tmp → size ≤ frob_from fuel size tmp
unfolding frob_from
frob_from-le zero size tmp pos l = omega arith
frob_from-le (suc fuel) size tmp pos l =
    let i = frob_from-le fuel size (tmp * 2) (omega arith) (omega arith) in ground arith

frob_size-le : (size : ℕ) → size ≤ frob_size size
unfolding frob_size
frob_size-le size = frob_from-le size size 16 (omega arith) (omega arith)

module _ (own : ℕ → ℕ) (p : ℕ) (r : Rep) (h : Heap) (c : IsCounted (plus own p) h)
    (e : h.cell p ≡ some r) where
  copied-Acquired :
      (cap : ℕ)
      → length r.bytes ≤ cap
      → Acquired own r.bytes cap h (moved p (created cap r.bytes h))
  copied-Acquired cap l =
      moved-Acquired own p r.bytes cap h (created cap r.bytes h)
        (created-Acquired (plus own p) cap r.bytes h c l)

  pub unique-Acquired : Acquired own r.bytes r.cap h (unique p h)
  unfolding unique clone
  unique-Acquired = elim (Bool-cases (ltb 1 r.ref)) [
    | inl t ↦ rw (load-there p r h e) (rw t (copied-Acquired r.cap (c.fits p r e)))
    | inr t ↦ rw (load-there p r h e) (
        rw t (record {
          block = p;
          heap = h;
          runs = refl;
          counted = c;
          alone = (let n = c.counted p r e in let m = plus_same own p in ground (arith, n, m));
          rep = r;
          there = e;
          same = refl;
          room = omega arith;
          kept = λ k l. refl;
        }))
  ]

  pub reserve-Acquired : (size : ℕ) → Acquired own r.bytes size h (reserve size p h)
  unfolding reserve
  reserve-Acquired size = elim (Bool-cases (ltb r.cap (frob_size size))) [
    | inl t ↦ rw (load-there p r h e) (
        rw t (
          weaken-Acquired (frob_size-le size)
            (copied-Acquired (frob_size size) (let f = c.fits p r e in ground (arith, f)))))
    | inr t ↦
        let enough : size ≤ r.cap = (let f = frob_size-le size in ground (arith, f)) in
        let same : reserve size p h ≡ unique p h = rw (load-there p r h e) (rw t refl) in
        subst (Acquired own r.bytes size h) (sym same) (weaken-Acquired enough unique-Acquired)
  ]
