-- ===== src/Net/Octets/Blocks.antt =====
-- The blocks of util/net/octets.h: a block's counter is the number of pointers to it.
use live_streaming.Base.{
  ℕ, ◌+◌, ◌-◌, ◌≤◌, ◌<◌, ◌≡◌, ◌≢◌, refl, sym, ap, ◌∙◌, subst, true, ◌==◌, leb, if◌then◌else◌, List,
  length, Option, none, some, arith, inl, inr, ◌⊎◌, if_true, if_false, Bool-cases,
}
use live_streaming.Result.{ok, faults}
use live_streaming.Net.Octets.{
  Rep, Heap, put_cell, load, store, retain, release, unlock_freed, fill,
}

-- The capacity and the bytes of a block.
abbrev pub body_of : Option Rep → Option (ℕ × List ℕ)
body_of none = none
body_of (some r) = some (r.cap, r.bytes)

abbrev pub body_at : Heap → ℕ → Option (ℕ × List ℕ)
body_at h p = body_of (h.cell p)

-- `own p` pointers lead to the block p: it is there just as long as there are any, its counter is their
-- number, addresses from `next` on were not used, and a block's bytes fit in it.
pub record IsCounted (own : ℕ → ℕ) (h : Heap) : Type 0 where
  pub counted : (p : ℕ) (r : Rep) → h.cell p ≡ some r → r.ref ≡ own p
  pub held : (p : ℕ) (r : Rep) → h.cell p ≡ some r → 0 < own p
  pub there : (p : ℕ) → 0 < own p → (r : Rep) × (h.cell p ≡ some r)
  pub unused : (p : ℕ) → h.next ≤ p → own p ≡ 0
  pub unlocks : h.freed_unlocks ≡ true
  pub fits : (p : ℕ) (r : Rep) → h.cell p ≡ some r → length r.bytes ≤ r.cap

-- The blocks that are held keep their capacity and bytes.
abbrev pub Keeps : (ℕ → ℕ) → Heap → Heap → Type 0
Keeps own h h' = (p : ℕ) → 0 < own p → body_at h' p ≡ body_at h p

pub put_cases :
    (p : ℕ) (o : Option Rep) (cell : ℕ → Option Rep) (q : ℕ)
    → ((p ≡ q) × (put_cell p o cell q ≡ o)) ⊎ ((p ≢ q) × (put_cell p o cell q ≡ cell q))
unfolding put_cell
put_cases p o cell q = ground arith

pub load-there : (p : ℕ) (r : Rep) (h : Heap) → h.cell p ≡ some r → load p h ≡ ok r
unfolding load
load-there p r h e = rw (e, load) refl

same_body : (x r : Rep) → x.bytes ≡ r.bytes → x.cap ≡ r.cap → body_of (some x) ≡ body_of (some r)
same_body x r e f = rw (e, f) refl

-- A counter goes up or down by one with the number of pointers, and at 0 the block is freed.
recount-IsCounted :
    (own own' : ℕ → ℕ) (p : ℕ) (r : Rep) (o : Option Rep) (h : Heap)
    → IsCounted own h
    → h.cell p ≡ some r
    → ((q : ℕ) → p ≢ q → own' q ≡ own q)
    → ((x : Rep)
        → o ≡ some x
        → (x.ref ≡ own' p) × (0 < own' p) × (x.bytes ≡ r.bytes) × (x.cap ≡ r.cap))
    → (0 < own' p → (x : Rep) × (o ≡ some x))
    → 0 < own p
    → IsCounted own' (store p o h) × Keeps own' h (store p o h)
unfolding store
recount-IsCounted own own' p r o h c e others new kept positive = (
  record {
    counted = λ q x f. elim (put_cases p o h.cell q) [
      | inl (same, g) ↦ subst (λ k. x.ref ≡ own' k) same (new x (sym g ∙ f)).0
      | inr (n, g) ↦ c.counted q x (sym g ∙ f) ∙ sym (others q n)
    ];
    held = λ q x f. elim (put_cases p o h.cell q) [
      | inl (same, g) ↦ subst (λ k. 0 < own' k) same (new x (sym g ∙ f)).1
      | inr (n, g) ↦ subst (λ k. 0 < k) (sym (others q n)) (c.held q x (sym g ∙ f))
    ];
    there = λ q l. elim (put_cases p o h.cell q) [
      | inl (same, g) ↦ let (x, f) = kept (subst (λ k. 0 < own' k) (sym same) l) in (x, g ∙ f)
      | inr (n, g) ↦ let (x, f) = c.there q (rw⁻¹ (others q n) l) in (x, g ∙ f)
    ];
    unused = λ q l. elim (put_cases p o h.cell q) [
      | inl (same, g) ↦
          absurd (omega (arith, positive, c.unused p (subst (λ k. h.next ≤ k) (sym same) l)))
      | inr (n, g) ↦ others q n ∙ c.unused q l
    ];
    unlocks = c.unlocks;
    fits = λ q x f. elim (put_cases p o h.cell q) [
      | inl (same, g) ↦
          let (count, some_left, bytes, cap) = new x (sym g ∙ f) in rw (bytes, cap) (c.fits p r e)
      | inr (n, g) ↦ c.fits q x (sym g ∙ f)
    ];
  },
  λ q l. elim (put_cases p o h.cell q) [
    | inl (same, g) ↦
        let (x, f) = kept (subst (λ k. 0 < own' k) (sym same) l) in
        ap body_of (g ∙ f)
        ∙ same_body x r (new x f).2 (new x f).3
        ∙ sym (ap body_of (sym (ap h.cell same) ∙ e))
    | inr (n, g) ↦ ap body_of g
  ],
)

-- The last pointer's release frees the block, and any other lowers its counter.
last :
    (p : ℕ) (r : Rep) (h : Heap)
    → h.freed_unlocks ≡ true
    → (if r.ref - 1 == 0
        then unlock_freed (store p none h)
        else ok (store p (some (record r { ref = r.ref - 1 })) h))
      ≡ ok (store p (if r.ref - 1 == 0 then none else some (record r { ref = r.ref - 1 })) h)
unfolding unlock_freed store
last p r h u = elim (Bool-cases (r.ref - 1 == 0)) [ inl t ↦ rw t (rw u refl) | inr f ↦ rw f refl ]

-- One pointer less to p.
pub release-Counted :
    (own own' : ℕ → ℕ) (p : ℕ) (h : Heap)
    → IsCounted own h
    → 0 < own p
    → own' p + 1 ≡ own p
    → ((q : ℕ) → p ≢ q → own' q ≡ own q)
    → (h' : Heap) × (release p h ≡ ok h') × IsCounted own' h' × Keeps own' h h' × (h'.next ≡ h.next)
unfolding release unlock_freed
release-Counted own own' p h c positive one others =
    let (r, e) = c.there p positive in
    let n = c.counted p r e in
    let o : Option Rep = if r.ref - 1 == 0 then none else some (record r { ref = r.ref - 1 }) in
    let k =
      recount-IsCounted own own' p r o h c e others (λ x f. ground arith)
        (λ l. (
          record r { ref = r.ref - 1 },
          if_false (r.ref - 1 == 0) none (some (record r { ref = r.ref - 1 })) (ground arith),
        ))
        positive in
    (store p o h, rw (load-there p r h e) (last p r h c.unlocks), k.0, k.1, unfold store in refl)

-- One pointer more to p.
pub retain-Counted :
    (own own' : ℕ → ℕ) (p : ℕ) (h : Heap)
    → IsCounted own h
    → 0 < own p
    → own' p ≡ own p + 1
    → ((q : ℕ) → p ≢ q → own' q ≡ own q)
    → (h' : Heap) × (retain p h ≡ ok h') × IsCounted own' h' × Keeps own' h h' × (h'.next ≡ h.next)
unfolding retain
retain-Counted own own' p h c positive one others =
    let (r, e) = c.there p positive in
    let n = c.counted p r e in
    let o : Option Rep = some (record r { ref = r.ref + 1 }) in
    let k =
      recount-IsCounted own own' p r o h c e others (λ x f. ground arith)
        (λ l. (record r { ref = r.ref + 1 }, refl)) positive in
    (store p o h, rw (load-there p r h e) refl, k.0, k.1, unfold store in refl)

-- One pointer more to q.
abbrev pub plus : (ℕ → ℕ) → ℕ → ℕ → ℕ
plus own q k = if q == k then own k + 1 else own k

pub plus_same : (own : ℕ → ℕ) (q : ℕ) → plus own q q ≡ own q + 1
plus_same own q = ground arith

pub plus_other : (own : ℕ → ℕ) (q k : ℕ) → q ≢ k → plus own q k ≡ own k
plus_other own q k n = ground arith

pub put_same : (p : ℕ) (o : Option Rep) (cell : ℕ → Option Rep) → put_cell p o cell p ≡ o
unfolding put_cell
put_same p o cell = ground arith

pub put_other :
    (p : ℕ) (o : Option Rep) (cell : ℕ → Option Rep) (q : ℕ) → p ≢ q → put_cell p o cell q ≡ cell q
unfolding put_cell
put_other p o cell q n = ground arith

-- The bytes of a block are replaced by bytes that fit.
pub record Filled (own : ℕ → ℕ) (q : ℕ) (ys : List ℕ) (h : Heap) : Type 0 where
  pub heap : Heap
  pub runs : fill q ys h ≡ ok heap
  pub counted : IsCounted own heap
  pub kept : (p : ℕ) → q ≢ p → body_at heap p ≡ body_at h p
  pub same_next : heap.next ≡ h.next
  pub cell : (r : Rep) → h.cell q ≡ some r → heap.cell q ≡ some (record r { bytes = ys })

pub fill-Filled :
    (own : ℕ → ℕ) (q : ℕ) (ys : List ℕ) (r : Rep) (h : Heap)
    → IsCounted own h
    → h.cell q ≡ some r
    → length ys ≤ r.cap
    → Filled own q ys h
unfolding fill store
fill-Filled own q ys r h c e l =
    let o : Option Rep = some (record r { bytes = ys }) in
    let ends : leb (length ys) r.cap ≡ true = ground arith in
    record {
      heap = record h { cell = put_cell q o h.cell };
      runs = rw (load-there q r h e) (if_true (leb (length ys) r.cap) _ faults ends);
      counted = record {
        counted = λ p x f. elim (put_cases q o h.cell p) [
          | inl (same, g) ↦
              let t : o ≡ some x = sym g ∙ f in
              let u : x.ref ≡ r.ref = ground arith in u ∙ c.counted q r e ∙ ap own same
          | inr (n, g) ↦ c.counted p x (sym g ∙ f)
        ];
        held = λ p x f. elim (put_cases q o h.cell p) [
          | inl (same, g) ↦ subst (λ k. 0 < own k) same (c.held q r e)
          | inr (n, g) ↦ c.held p x (sym g ∙ f)
        ];
        there = λ p k. elim (put_cases q o h.cell p) [
          | inl (same, g) ↦ (record r { bytes = ys }, g)
          | inr (n, g) ↦ let (x, f) = c.there p k in (x, g ∙ f)
        ];
        unused = c.unused;
        unlocks = c.unlocks;
        fits = λ p x f. elim (put_cases q o h.cell p) [
          | inl (same, g) ↦ let t : o ≡ some x = sym g ∙ f in ground arith
          | inr (n, g) ↦ c.fits p x (sym g ∙ f)
        ];
      };
      kept = λ p n. ap body_of (put_other q o h.cell p n);
      same_next = refl;
      cell = λ x f. let same : x ≡ r = cc in rw same (put_same q o h.cell);
    }

pub same-IsCounted :
    (own own' : ℕ → ℕ) (h : Heap) → IsCounted own h → ((p : ℕ) → own' p ≡ own p) → IsCounted own' h
same-IsCounted own own' h c e = record {
  counted = λ p r f. c.counted p r f ∙ sym (e p);
  held = λ p r f. rw (e p) (c.held p r f);
  there = λ p l. c.there p (rw⁻¹ (e p) l);
  unused = λ p l. e p ∙ c.unused p l;
  unlocks = c.unlocks;
  fits = c.fits;
}
