-- ===== src/Net/Octets/Changing.antt =====
-- The edits of util/net/octets.h: they change the bytes of a block of the object's own.
use live_streaming.Base.{
  ℕ, zero, suc, ◌+◌, ◌≤◌, ◌≡◌, refl, ap, ◌∙◌, subst, Bool, true, false, leb, if◌then◌else◌, List,
  [], ◌∷◌, ◌++◌, length, Option, none, some, arith, inl, inr, ◌⊎◌, take, drop, length-take,
  length-drop, length-append,
}
use live_streaming.Result.{Result, ok, faults, ◌>>=◌}
use live_streaming.Net.Octets.{Rep, Heap, fill}
use live_streaming.Net.Octets.{
  Edit, touch, clear, reserves, replace, insert, erase, resize, acquire, change,
}
use live_streaming.Net.Octets.Editing.{edited, sized, edit_bytes-edited}
use live_streaming.Net.Octets.Blocks.{IsCounted, Keeps, load-there, plus, fill-Filled}
use live_streaming.Net.Octets.Acquiring.{Acquired, unique-Acquired, reserve-Acquired}

-- The object's pointer led to p, and leads to a block of its own with the edited bytes now.
pub record Changed (own : ℕ → ℕ) (ys : List ℕ) (h : Heap) (r : Result (ℕ × Heap)) : Type 0 where
  pub block : ℕ
  pub heap : Heap
  pub runs : r ≡ ok (block, heap)
  pub counted : IsCounted (plus own block) heap
  pub rep : Rep
  pub there : heap.cell block ≡ some rep
  pub same : rep.bytes ≡ ys
  pub kept : Keeps own h heap

-- Room for the edited bytes.
abbrev needed : Edit → Rep → ℕ
needed touch r = r.cap
needed clear r = r.cap
needed (reserves n) r = n
needed (replace ys) r = length ys
needed (insert pos ys) r = length r.bytes + length ys
needed (erase pos len) r = r.cap
needed (resize n junk) r = n

some-if : (b : Bool) (xs ys : List ℕ) → (if b then some xs else none) ≡ some ys → xs ≡ ys
some-if true xs ys e = cc
some-if false xs ys e = cc

length-take-drop : (n : ℕ) (xs : List ℕ) → length (take n xs) + length (drop n xs) ≡ length xs
length-take-drop n xs = omega (arith, length-take n xs, length-drop n xs)

length-sized : (n : ℕ) (junk : ℕ → ℕ) (xs : List ℕ) → length (sized n junk xs) ≡ n
unfolding sized
length-sized zero junk xs = refl
length-sized (suc n) junk [] = omega (arith, length-sized n junk [])
length-sized (suc n) junk (x ∷ xs) = omega (arith, length-sized n junk xs)

edited-le :
    (d : Edit) (r : Rep) (ys : List ℕ)
    → edited d r.bytes ≡ some ys
    → (length ys ≤ needed d r) ⊎ (length ys ≤ length r.bytes)
unfolding edited
edited-le touch r ys e = inr (let same : r.bytes ≡ ys = cc in rw (← same) (omega arith))
edited-le clear r ys e = inr (let same : [] ≡ ys = cc in rw (← same) (omega arith))
edited-le (reserves n) r ys e = inr (let same : r.bytes ≡ ys = cc in rw (← same) (omega arith))
edited-le (replace zs) r ys e = inl (let same : zs ≡ ys = cc in rw (← same) (omega arith))
edited-le (insert pos zs) r ys e =
    let xs = r.bytes in
    let new = take pos xs ++ (zs ++ drop pos xs) in
    let same : new ≡ ys = some-if (leb pos (length xs)) new ys e in
    inl (
      omega (
        arith,
        ap length same,
        length-append (take pos xs) (zs ++ drop pos xs),
        length-append zs (drop pos xs),
        length-take-drop pos xs,
      ))
edited-le (erase pos len) r ys e =
    let xs = r.bytes in
    let new = take pos xs ++ drop (pos + len) xs in
    let same : new ≡ ys = some-if (leb (pos + len) (length xs)) new ys e in
    inr (
      omega (
        arith,
        ap length same,
        length-append (take pos xs) (drop (pos + len) xs),
        length-take-drop pos xs,
        length-drop (pos + len) xs,
        length-drop pos xs,
      ))
edited-le (resize n junk) r ys e = inl (
    let same : sized n junk r.bytes ≡ ys = cc in
    omega (arith, ap length same, length-sized n junk r.bytes))

module _ (own : ℕ → ℕ) (p : ℕ) (r : Rep) (h : Heap) (c : IsCounted (plus own p) h)
    (e : h.cell p ≡ some r) where
  acquire-Acquired : (d : Edit) → Acquired own r.bytes (needed d r) h (acquire d r.bytes p h)
  unfolding acquire
  acquire-Acquired touch = unique-Acquired own p r h c e
  acquire-Acquired clear = unique-Acquired own p r h c e
  acquire-Acquired (reserves n) = reserve-Acquired own p r h c e n
  acquire-Acquired (replace ys) = reserve-Acquired own p r h c e (length ys)
  acquire-Acquired (insert pos ys) = reserve-Acquired own p r h c e (length r.bytes + length ys)
  acquire-Acquired (erase pos len) = unique-Acquired own p r h c e
  acquire-Acquired (resize n junk) = reserve-Acquired own p r h c e n

  changed_to : Edit → Option (List ℕ) → Result (ℕ × Heap)
  changed_to d o = elim o [
    | none ↦ faults
    | some zs ↦ acquire d r.bytes p h >>= λ (q, h'). fill q zs h' >>= λ h''. ok (q, h'')
  ]

  pub change_out : (d : Edit) → edited d r.bytes ≡ none → change d p h ≡ faults
  unfolding change changed_to
  change_out d f = rw (load-there p r h e) (ap (changed_to d) (edit_bytes-edited d r.bytes ∙ f))

  pub change-Changed :
      (d : Edit) (ys : List ℕ) → edited d r.bytes ≡ some ys → Changed own ys h (change d p h)
  unfolding change changed_to
  change-Changed d ys f =
      let a = acquire-Acquired d in
      let fits : length ys ≤ a.rep.cap = elim (edited-le d r ys f) [
        | inl l ↦ omega (arith, l, a.room)
        | inr l ↦ omega (arith, l, a.counted.fits a.block a.rep a.there, ap length (a.same))
      ] in
      let w = fill-Filled (plus own a.block) a.block ys a.rep a.heap a.counted a.there fits in
      record {
        block = a.block;
        heap = w.heap;
        runs =
            rw (load-there p r h e)
              (ap (changed_to d) (edit_bytes-edited d r.bytes ∙ f) ∙ rw a.runs (rw w.runs refl));
        counted = w.counted;
        rep = record (a.rep) { bytes = ys };
        there = w.cell a.rep a.there;
        same = refl;
        kept = λ k l.
            w.kept k (λ s. let z = subst (λ m. own m ≡ 0) s a.alone in omega (arith, z, l))
            ∙ a.kept k l;
      }
