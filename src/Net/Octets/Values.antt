-- ===== src/Net/Octets/Values.antt =====
-- What the class Octets of util/net/octets.h promises: each object is a byte string of its own.
use live_streaming.Base.{
  ℕ, zero, suc, ◌+◌, ◌<◌, ◌≡◌, refl, sym, ap, ◌∙◌, true, ◌==◌, if◌then◌else◌, List, [], ◌∷◌, ◌++◌,
  get_elem?, set, Option, none, some, arith, inl, inr, ◌⊎◌, map,
}
use live_streaming.Result.{Result, ok, faults, ◌>>=◌}
use live_streaming.Net.Octets.{
  Rep, Heap, Objects, Call, construct, construct_sized, construct_from, copy, assign, swap, destroy,
  edits,
}
use live_streaming.Net.Octets.Editing.{edited}
use live_streaming.Net.Octets.Counting.{count}
use live_streaming.Net.Octets.Blocks.{IsCounted, body_of, body_at}

-- The bytes of an object, `none` when it was destroyed.
abbrev pub bytes_of : Option Rep → Option (List ℕ)
bytes_of none = none
bytes_of (some r) = some r.bytes

abbrev pub value : (ℕ → Option Rep) → Option ℕ → Option (List ℕ)
value cell none = none
value cell (some p) = bytes_of (cell p)

abbrev pub view : Heap → List (Option ℕ) → List (Option (List ℕ))
view h base = map (value h.cell) base

abbrev pub values : Objects → List (Option (List ℕ))
values s = view s.heap s.base

-- The calls on byte strings that are not shared.
abbrev pub value_of : ℕ → List (Option (List ℕ)) → Result (List ℕ)
value_of i vs = elim (get_elem? vs i) [
  | none ↦ faults
  | some o ↦ elim o [ none ↦ faults | some xs ↦ ok xs ]
]

unfoldable pub value_call : Call → List (Option (List ℕ)) → Result (List (Option (List ℕ)))
unfolding edited
value_call construct vs = ok (vs ++ some [] ∷ [])
value_call (construct_sized n) vs = ok (vs ++ some [] ∷ [])
value_call (construct_from xs) vs = ok (vs ++ some xs ∷ [])
value_call (copy j) vs = do xs ← value_of j vs; ok (vs ++ some xs ∷ [])
value_call (assign i j) vs = do xs ← value_of i vs; ys ← value_of j vs; ok (set vs i (some ys))
value_call (swap i j) vs = do
  xs ← value_of i vs
  ys ← value_of j vs
  ok (set (set vs i (some ys)) j (some xs))
value_call (destroy i) vs = do xs ← value_of i vs; ok (set vs i none)
value_call (edits i e) vs = do
  xs ← value_of i vs
  elim (edited e xs) [ none ↦ faults | some ys ↦ ok (set vs i (some ys)) ]

unfoldable pub value_calls : List Call → List (Option (List ℕ)) → Result (List (Option (List ℕ)))
unfolding value_call
value_calls [] vs = ok vs
value_calls (c ∷ cs) vs = value_call c vs >>= value_calls cs

-- Rep::null starts with a pointer of its own, so it is never freed.
abbrev pub owns : List (Option ℕ) → ℕ → ℕ
owns base p = count p base + (if p == 0 then 1 else 0)

pub record IsSound (s : Objects) : Type 0 where
  pub counted : IsCounted (owns s.base) s.heap
  pub null : body_at s.heap 0 ≡ some (0, [])

pub value-at :
    (h : Heap) (base : List (Option ℕ)) (i p : ℕ) (r : Rep)
    → get_elem? base i ≡ some (some p)
    → h.cell p ≡ some r
    → value_of i (view h base) ≡ ok r.bytes
value-at h [] i p r e f = cc
value-at h (o ∷ base) zero p r e f = let same : o ≡ some p = cc in rw same (rw f refl)
value-at h (o ∷ base) (suc i) p r e f = value-at h base i p r e f

pub value-gone :
    (h : Heap) (base : List (Option ℕ)) (i : ℕ)
    → (get_elem? base i ≡ none) ⊎ (get_elem? base i ≡ some none)
    → value_of i (view h base) ≡ faults
value-gone h [] i e = refl
value-gone h (o ∷ base) zero (inl e) = cc
value-gone h (o ∷ base) zero (inr e) = let same : o ≡ none = cc in rw same refl
value-gone h (o ∷ base) (suc i) e = value-gone h base i e

abbrev bytes_in : Option (ℕ × List ℕ) → Option (List ℕ)
bytes_in none = none
bytes_in (some b) = some b.1

bytes_in-body_of : (a : Option Rep) → bytes_in (body_of a) ≡ bytes_of a
bytes_in-body_of none = refl
bytes_in-body_of (some r) = refl

pub same_bytes : (a b : Option Rep) → body_of a ≡ body_of b → bytes_of a ≡ bytes_of b
same_bytes a b e = sym (bytes_in-body_of a) ∙ ap bytes_in e ∙ bytes_in-body_of b

-- Objects see no difference when the blocks that they hold keep their bytes.
pub view_cong :
    (h h' : Heap) (base : List (Option ℕ))
    → ((p : ℕ) → 0 < count p base → body_at h' p ≡ body_at h p)
    → view h' base ≡ view h base
view_cong h h' [] k = refl
view_cong h h' (none ∷ base) k = ap (◌∷◌ none) (view_cong h h' base (λ p l. k p (omega (arith, l))))
view_cong h h' (some p ∷ base) k =
    let one : (p == p) ≡ true = ground arith in
    let head = same_bytes (h'.cell p) (h.cell p) (k p (rw one (omega arith))) in
    let rest = view_cong h h' base (λ q l. k q (omega (arith, l))) in rw (head, rest) refl
