-- ===== src/Net/Octets/Counting.antt =====
-- How many objects hold a block of util/net/octets.h.
use live_streaming.Base.{
  ℕ, zero, suc, ◌+◌, ◌<◌, ◌≡◌, refl, ap, true, ◌==◌, if◌then◌else◌, List, [], ◌∷◌, ◌++◌, get_elem?,
  set, Option, none, some, arith, map,
}

-- The same pointer.
abbrev pub holds : ℕ → Option ℕ → ℕ
holds p none = 0
holds p (some q) = if q == p then 1 else 0

abbrev pub count : ℕ → List (Option ℕ) → ℕ
count p [] = 0
count p (o ∷ os) = holds p o + count p os

pub count-append : (p : ℕ) (xs ys : List (Option ℕ)) → count p (xs ++ ys) ≡ count p xs + count p ys
count-append p [] ys = omega arith
count-append p (x ∷ xs) ys = omega (arith, count-append p xs ys)

pub count-set :
    (p : ℕ) (xs : List (Option ℕ)) (i : ℕ) (old new : Option ℕ)
    → get_elem? xs i ≡ some old
    → count p (set xs i new) + holds p old ≡ count p xs + holds p new
count-set p [] i old new e = cc
count-set p (x ∷ xs) zero old new e = let same : x ≡ old = cc in rw same (omega arith)
count-set p (x ∷ xs) (suc i) old new e = omega (arith, count-set p xs i old new e)

pub count_pos :
    (p : ℕ) (xs : List (Option ℕ)) (i : ℕ) → get_elem? xs i ≡ some (some p) → 0 < count p xs
count_pos p [] i e = cc
count_pos p (x ∷ xs) zero e =
    let same : x ≡ some p = cc in
    let one : (p == p) ≡ true = ground arith in rw (same, one) (omega arith)
count_pos p (x ∷ xs) (suc i) e = omega (arith, count_pos p xs i e)

module _ {ℓ} {A : Type ℓ} where
  pub set-set : (xs : List A) (i : ℕ) (a b : A) → set (set xs i a) i b ≡ set xs i b
  set-set [] i a b = refl
  set-set (x ∷ xs) zero a b = refl
  set-set (x ∷ xs) (suc i) a b = ap (◌∷◌ x) (set-set xs i a b)

  pub get_elem?-set :
      (xs : List A) (i : ℕ) (a b : A) → get_elem? xs i ≡ some a → get_elem? (set xs i b) i ≡ some b
  get_elem?-set [] i a b e = cc
  get_elem?-set (x ∷ xs) zero a b e = refl
  get_elem?-set (x ∷ xs) (suc i) a b e = get_elem?-set xs i a b e

  pub get_elem?-map {κ} :
      {B : Type κ} (f : A → B) (xs : List A) (i : ℕ) (a : A)
      → get_elem? xs i ≡ some a
      → get_elem? (map f xs) i ≡ some (f a)
  get_elem?-map f [] i a e = cc
  get_elem?-map f (x ∷ xs) zero a e = let same : x ≡ a = cc in rw same refl
  get_elem?-map f (x ∷ xs) (suc i) a e = get_elem?-map f xs i a e

  pub map-set {κ} :
      {B : Type κ} (f : A → B) (xs : List A) (i : ℕ) (a : A)
      → map f (set xs i a) ≡ set (map f xs) i (f a)
  map-set f [] i a = refl
  map-set f (x ∷ xs) zero a = refl
  map-set f (x ∷ xs) (suc i) a = ap (◌∷◌ (f x)) (map-set f xs i a)

  pub map-append {κ} :
      {B : Type κ} (f : A → B) (xs ys : List A) → map f (xs ++ ys) ≡ map f xs ++ map f ys
  map-append f [] ys = refl
  map-append f (x ∷ xs) ys = ap (◌∷◌ (f x)) (map-append f xs ys)

  pub set_same : (xs : List A) (i : ℕ) (a : A) → get_elem? xs i ≡ some a → set xs i a ≡ xs
  set_same [] i a e = refl
  set_same (x ∷ xs) zero a e = let same : x ≡ a = cc in rw same refl
  set_same (x ∷ xs) (suc i) a e = ap (◌∷◌ x) (set_same xs i a e)
