-- ===== src/Recorder/Splitting.antt =====
-- The loops over the flags of recorder/context.cc: texts that are joined by separators.
use live_streaming.Base.{
  ℕ, suc, zero, ◌<◌, ◌≡◌, ◌≢◌, refl, ap, sym, subst, true, false, List, [], ◌∷◌, ◌++◌, ◌==◌, length,
  length-append, none, some, arith,
}
use live_streaming.Result.{ok}
use live_streaming.Recorder.{cut_at, split_params}

abbrev pub join : ℕ → List (List ℕ) → List ℕ
join sep [] = []
join sep (x ∷ []) = x
join sep (x ∷ y ∷ ys) = x ++ sep ∷ join sep (y ∷ ys)

abbrev pub Lacks : ℕ → List ℕ → Type 0
Lacks sep [] = Unit
Lacks sep (c ∷ cs) = (c ≢ sep) × Lacks sep cs

-- No item has a separator, and the last is not empty.
abbrev pub AreItems : ℕ → List (List ℕ) → Type 0
AreItems sep [] = Unit
AreItems sep (x ∷ []) = Lacks sep x × (0 < length x)
AreItems sep (x ∷ y ∷ ys) = Lacks sep x × AreItems sep (y ∷ ys)

longer : (x : List ℕ) (c : ℕ) (rest : List ℕ) → 0 < length (x ++ c ∷ rest)
longer [] c rest = omega arith
longer (y ∷ ys) c rest = omega arith

joined : (x rest : List ℕ) (sep : ℕ) → (x ++ sep ∷ rest) ++ sep ∷ [] ≡ x ++ sep ∷ (rest ++ sep ∷ [])
joined [] rest sep = refl
joined (y ∷ ys) rest sep = ap (◌∷◌ y) (joined ys rest sep)

cut_at-append :
    (sep : ℕ) (x rest : List ℕ) → Lacks sep x → cut_at sep (x ++ sep ∷ rest) ≡ (x, some rest)
unfolding cut_at
cut_at-append sep [] rest l = let e : (sep == sep) ≡ true = ground arith in rw e refl
cut_at-append sep (c ∷ cs) rest l =
    let e : (c == sep) ≡ false = ground (arith, l.0) in
    rw e (rw (cut_at-append sep cs rest l.1) refl)

cut_at_alone : (sep : ℕ) (x : List ℕ) → Lacks sep x → cut_at sep x ≡ (x, none)
unfolding cut_at
cut_at_alone sep [] l = refl
cut_at_alone sep (c ∷ cs) l =
    let e : (c == sep) ≡ false = ground (arith, l.0) in rw e (rw (cut_at_alone sep cs l.1) refl)

-- A round of the loop at a text that is not empty.
split-some :
    (fuel sep : ℕ) (text item rest : List ℕ) (items : List (List ℕ))
    → 0 < length text
    → cut_at sep text ≡ (item, some rest)
    → split_params fuel sep rest ≡ ok items
    → split_params (suc fuel) sep text ≡ ok (item ∷ items)
unfolding split_params
split-some fuel sep [] item rest items p c h = absurd (omega arith)
split-some fuel sep (x ∷ xs) item rest items p c h = rw (split_params, c) (rw (h, c) refl)

split-none :
    (fuel sep : ℕ) (text item : List ℕ)
    → 0 < length text
    → cut_at sep text ≡ (item, none)
    → split_params (suc fuel) sep text ≡ ok (item ∷ [])
unfolding split_params
split-none fuel sep [] item p c = absurd (omega arith)
split-none fuel sep (x ∷ xs) item p c = rw (split_params, c) (rw c refl)

split_empty : (fuel sep : ℕ) → split_params (suc fuel) sep [] ≡ ok []
unfolding split_params
split_empty fuel sep = refl

-- Items that are joined by a separator come back from the loop, whether or not the text has one more
-- separator at its end, if none of them has a separator and the last is not empty. The fuel is more
-- than the length of the text.
split_params-join :
    (fuel sep : ℕ) (items : List (List ℕ))
    → AreItems sep items
    → length (join sep items) < fuel
    → (split_params fuel sep (join sep items) ≡ ok items)
      × (0 < length items → split_params (suc fuel) sep (join sep items ++ sep ∷ []) ≡ ok items)
split_params-join zero sep items a f = absurd (omega arith)
split_params-join (suc fuel) sep [] a f = (split_empty fuel sep, λ p. absurd (omega arith))
split_params-join (suc fuel) sep (x ∷ []) a f = (
  split-none fuel sep x x a.1 (cut_at_alone sep x a.0),
  λ p.
      split-some (suc fuel) sep (x ++ sep ∷ []) x [] [] (longer x sep [])
        (cut_at-append sep x [] a.0) (split_empty fuel sep),
)
split_params-join (suc fuel) sep (x ∷ y ∷ ys) a f =
    let rest = join sep (y ∷ ys) in
    let long = length-append x (sep ∷ rest) in
    let (whole, more) = split_params-join fuel sep (y ∷ ys) a.1 (omega arith) in
    (
      split-some fuel sep (x ++ sep ∷ rest) x rest (y ∷ ys) (longer x sep rest)
          (cut_at-append sep x rest a.0) whole,
      λ p.
          subst (λ (text : List ℕ). split_params (suc (suc fuel)) sep text ≡ ok (x ∷ y ∷ ys))
            (sym (joined x rest sep))
            (split-some (suc fuel) sep (x ++ sep ∷ (rest ++ sep ∷ [])) x (rest ++ sep ∷ []) (y ∷ ys)
              (longer x sep (rest ++ sep ∷ [])) (cut_at-append sep x (rest ++ sep ∷ []) a.0)
              (more (omega arith))),
    )
