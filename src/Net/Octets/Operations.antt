-- ===== src/Net/Octets/Operations.antt =====
-- Each call of util/net/octets.h does to an object's bytes what it would to a byte string of its own.
use live_streaming.Base.{
  ℕ, ◌+◌, ◌≤◌, ◌<◌, ◌≡◌, refl, sym, ap, ◌∙◌, List, [], ◌∷◌, ◌++◌, length, get_elem?, set, Option,
  none, some, arith, inl, inr, ◌⊎◌, Option-cases,
}
use live_streaming.Result.{Result, ok, faults, ◌>>=◌}
use live_streaming.Net.Octets.{
  Rep, Heap, Objects, Edit, destroy, edits, base_of, call, retain, created,
}
use live_streaming.Net.Octets.Editing.{edited}
use live_streaming.Net.Octets.Counting.{
  holds, count-append, count-set, count_pos, set-set, map-set, map-append,
}
use live_streaming.Net.Octets.Blocks.{
  IsCounted, Keeps, plus, plus_same, plus_other, retain-Counted, release-Counted, same-IsCounted,
}
use live_streaming.Net.Octets.Acquiring.{created-Acquired}
use live_streaming.Net.Octets.Changing.{change_out, change-Changed}
use live_streaming.Net.Octets.Values.{
  bytes_of, value, view, values, value_of, value_call, owns, IsSound, value-at, value-gone,
  view_cong, same_bytes,
}

-- The objects do what the byte strings do: both run on, or both are undefined.
abbrev pub Refines : Result Objects → Result (List (Option (List ℕ))) → Type 0
Refines r v =
    ((s : Objects) × (r ≡ ok s) × IsSound s × (v ≡ ok (values s))) ⊎ ((r ≡ faults) × (v ≡ faults))

-- The block of an object that is there.
pub record Live (s : Objects) (i : ℕ) : Type 0 where
  pub p : ℕ
  pub r : Rep
  pub object : get_elem? s.base i ≡ some (some p)
  pub cell : s.heap.cell p ≡ some r
  pub based : base_of i s ≡ ok p
  pub valued : value_of i (values s) ≡ ok r.bytes

pub base_of-cases :
    (s : Objects) (i : ℕ)
    → IsSound s
    → Live s i ⊎ ((base_of i s ≡ faults) × (value_of i (values s) ≡ faults))
unfolding base_of
base_of-cases s i k = elim (Option-cases (get_elem? s.base i)) [
  | inl e ↦ inr (rw (e, base_of) refl, value-gone s.heap s.base i (inl e))
  | inr (none, e) ↦ inr (rw (e, base_of) refl, value-gone s.heap s.base i (inr e))
  | inr (some p, e) ↦
      let (r, f) = k.counted.there p (omega (arith, count_pos p s.base i e)) in
      inl (record {
        p = p;
        r = r;
        object = e;
        cell = f;
        based = rw (e, base_of) refl;
        valued = value-at s.heap s.base i p r e f;
      })
]

-- An object is added.
added :
    (s : Objects) (h : Heap) (q : ℕ) (xs : List ℕ)
    → IsSound s
    → IsCounted (plus (owns s.base) q) h
    → Keeps (owns s.base) s.heap h
    → bytes_of (h.cell q) ≡ some xs
    → let t : Objects = record { heap = h; base = s.base ++ some q ∷ [] } in
      IsSound t × (values t ≡ values s ++ some xs ∷ [])
added s h q xs k c kept e = (
  record {
    counted =
        same-IsCounted (plus (owns s.base) q) (owns (s.base ++ some q ∷ [])) h c
          (λ p. let n = count-append p s.base (some q ∷ []) in ground arith);
    null = kept 0 (ground arith) ∙ k.null;
  },
  map-append (value h.cell) s.base (some q ∷ [])
      ∙ rw (e, view_cong s.heap h s.base (λ p l. kept p (omega (arith, l)))) refl,
)

-- An object's pointer is replaced.
pub replaced :
    (s : Objects) (h : Heap) (i : ℕ) (o : Option ℕ) (v : Option (List ℕ))
    → IsSound s
    → IsCounted (owns (set s.base i o)) h
    → Keeps (owns (set s.base i none)) s.heap h
    → value h.cell o ≡ v
    → let t : Objects = record { heap = h; base = set s.base i o } in
      IsSound t × (values t ≡ set (values s) i v)
replaced s h i o v k c kept e =
    let rest = view_cong s.heap h (set s.base i none) (λ p l. kept p (omega (arith, l))) in
    (
      record { counted = c; null = kept 0 (ground arith) ∙ k.null },
      ap (view h) (sym (set-set s.base i none o))
          ∙ map-set (value h.cell) (set s.base i none) i o
          ∙ rw (e, rest) (ap (λ vs. set vs i v) (map-set (value s.heap.cell) s.base i none))
          ∙ set-set (values s) i none v,
    )

pub pointers :
    (s : Objects) (i : ℕ) (l : Live s i) (o : Option ℕ) (p : ℕ)
    → owns (set s.base i o) p + holds p (some (l.p)) ≡ owns s.base p + holds p o
pointers s i l o p = omega (arith, count-set p s.base i (some (l.p)) o l.object)

pub constructed-Refines :
    (s : Objects) (cap : ℕ) (xs : List ℕ)
    → IsSound s
    → length xs ≤ cap
    → Refines
        (created cap xs s.heap >>= λ (q, h). ok (record { heap = h; base = s.base ++ some q ∷ [] }))
        (ok (values s ++ some xs ∷ []))
constructed-Refines s cap xs k l =
    let a = created-Acquired (owns s.base) cap xs s.heap k.counted l in
    let (sound, same) =
      added s a.heap a.block xs k a.counted a.kept (ap bytes_of a.there ∙ ap some a.same) in
    inl (
      record { heap = a.heap; base = s.base ++ some (a.block) ∷ [] },
      rw a.runs refl,
      sound,
      ap ok (sym same),
    )

-- An object is added that shares the block p.
pub shared-Refines :
    (s : Objects) (p : ℕ) (r : Rep)
    → IsSound s
    → s.heap.cell p ≡ some r
    → 0 < owns s.base p
    → Refines
        (retain p s.heap >>= λ h. ok (record { heap = h; base = s.base ++ some p ∷ [] }))
        (ok (values s ++ some (r.bytes) ∷ []))
shared-Refines s p r k e l =
    let (h, runs, c, kept, next) =
      retain-Counted (owns s.base) (plus (owns s.base) p) p s.heap k.counted l
        (plus_same (owns s.base) p) (plus_other (owns s.base) p) in
    let before : Keeps (owns s.base) s.heap h = λ q m. kept q (ground arith) in
    let (sound, same) =
      added s h p r.bytes k c before
        (same_bytes (h.cell p) (s.heap.cell p) (before p l) ∙ ap bytes_of e) in
    inl (record { heap = h; base = s.base ++ some p ∷ [] }, rw runs refl, sound, ap ok (sym same))

pub owned : (s : Objects) (i : ℕ) (l : Live s i) → 0 < owns s.base l.p
owned s i l = omega (arith, count_pos l.p s.base i l.object)

pub destroy-Refines :
    (s : Objects) (i : ℕ)
    → IsSound s
    → Refines (call (destroy i) s) (value_call (destroy i) (values s))
unfolding call value_call
destroy-Refines s i k = elim (base_of-cases s i k) [
  | inr (e, f) ↦ inr (rw e refl, rw f refl)
  | inl l ↦
      let n = pointers s i l none in
      let (h, runs, c, kept, next) =
        release-Counted (owns s.base) (owns (set s.base i none)) l.p s.heap k.counted (owned s i l)
          (let m = n l.p in ground arith) (λ q other. let m = n q in ground arith) in
      let (sound, same) = replaced s h i none none k c kept refl in
      inl (
        record { heap = h; base = set s.base i none },
        rw l.based (rw runs refl),
        sound,
        rw l.valued (ap ok (sym same)),
      )
]

pub edits-Refines :
    (s : Objects) (i : ℕ) (d : Edit)
    → IsSound s
    → Refines (call (edits i d) s) (value_call (edits i d) (values s))
unfolding call value_call
edits-Refines s i d k = elim (base_of-cases s i k) [
  | inr (e, f) ↦ inr (rw e refl, rw f refl)
  | inl l ↦
      let n = pointers s i l in
      let own = owns (set s.base i none) in
      let counted : IsCounted (plus own l.p) s.heap =
        same-IsCounted (owns s.base) (plus own l.p) s.heap k.counted
          (λ q. let m = n none q in ground arith) in
      let replace : Option (List ℕ) → Result (List (Option (List ℕ))) =
        λ o. elim o [ none ↦ faults | some ys ↦ ok (set (values s) i (some ys)) ] in
      elim (Option-cases (edited d l.r.bytes)) [
        | inl f ↦ inr (
          rw l.based (rw (change_out own l.p l.r s.heap counted l.cell d f) refl),
          rw l.valued (ap replace f),
        )
        | inr (ys, f) ↦
            let a = change-Changed own l.p l.r s.heap counted l.cell d ys f in
            let c : IsCounted (owns (set s.base i (some (a.block)))) a.heap =
              same-IsCounted (plus own a.block) _ a.heap a.counted
                (λ q. let m = n (some (a.block)) q in let z = n none q in ground arith) in
            let (sound, same) =
              replaced s a.heap i (some (a.block)) (some ys) k c a.kept
                (ap bytes_of a.there ∙ ap some a.same) in
            inl (
              record { heap = a.heap; base = set s.base i (some (a.block)) },
              rw l.based (rw a.runs refl),
              sound,
              rw l.valued (ap replace f ∙ ap ok (sym same)),
            )
      ]
]
