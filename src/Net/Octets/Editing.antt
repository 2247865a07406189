-- ===== src/Net/Octets/Editing.antt =====
-- The edits of util/net/octets.h on byte strings, and that the writes to a block's memory do the same.
use live_streaming.Base.{
  ℕ, zero, suc, ◌+◌, ◌-◌, ◌≤◌, ◌≡◌, refl, ap, ◌∙◌, Bool, true, false, leb, if◌then◌else◌, List, [],
  ◌∷◌, ◌++◌, length, take, drop, length-drop, Option, none, some, arith,
}
use live_streaming.Net.Octets.{
  Edit, touch, clear, reserves, replace, insert, erase, resize, overwrite, uncovered, edit_bytes,
}

-- The first n bytes, with junk behind the end.
unfoldable pub sized : ℕ → (ℕ → ℕ) → List ℕ → List ℕ
sized zero junk xs = []
sized (suc n) junk [] = junk n ∷ sized n junk []
sized (suc n) junk (x ∷ xs) = x ∷ sized n junk xs

-- An edit of a byte string; `none` where a position is out of range.
unfoldable pub edited : Edit → List ℕ → Option (List ℕ)
unfolding sized
edited touch xs = some xs
edited clear xs = some []
edited (reserves n) xs = some xs
edited (replace ys) xs = some ys
edited (insert pos ys) xs =
    if leb pos (length xs) then some (take pos xs ++ (ys ++ drop pos xs)) else none
edited (erase pos len) xs =
    if leb (pos + len) (length xs) then some (take pos xs ++ drop (pos + len) xs) else none
edited (resize n junk) xs = some (sized n junk xs)

sized-nil : (n : ℕ) (junk : ℕ → ℕ) → uncovered n junk ≡ sized n junk []
unfolding uncovered sized
sized-nil zero junk = refl
sized-nil (suc n) junk = ap (◌∷◌ (junk n)) (sized-nil n junk)

sized-uncovered :
    (n : ℕ) (junk : ℕ → ℕ) (xs : List ℕ)
    → take n xs ++ uncovered (n - length xs) junk ≡ sized n junk xs
unfolding uncovered sized
sized-uncovered zero junk xs = let e : 0 - length xs ≡ 0 = omega arith in rw e refl
sized-uncovered (suc n) junk [] =
    let e : suc n - 0 ≡ suc n = omega arith in rw e (ap (◌∷◌ (junk n)) (sized-nil n junk))
sized-uncovered (suc n) junk (x ∷ xs) =
    let e : suc n - suc (length xs) ≡ n - length xs = omega arith in
    rw e (ap (◌∷◌ x) (sized-uncovered n junk xs))

-- Bytes at an offset, of which there were at least as many.
take-overwrite :
    (off : ℕ) (ys xs : List ℕ)
    → off ≤ length xs
    → take (off + length ys) (overwrite off ys xs) ≡ take off xs ++ ys
unfolding overwrite
take-overwrite zero [] xs l =
    let e : 0 + length {A = ℕ} [] ≡ 0 = omega arith in ap (λ n. take n xs) e
take-overwrite zero (y ∷ ys) [] l =
    let e : 0 + suc (length ys) ≡ suc (0 + length ys) = omega arith in
    rw e (ap (◌∷◌ y) (take-overwrite zero ys [] (omega arith)))
take-overwrite zero (y ∷ ys) (x ∷ xs) l =
    let e : 0 + suc (length ys) ≡ suc (0 + length ys) = omega arith in
    rw e (ap (◌∷◌ y) (take-overwrite zero ys xs (omega arith)))
take-overwrite (suc off) ys [] l = absurd (omega (arith, l))
take-overwrite (suc off) ys (x ∷ xs) l =
    let e : suc off + length ys ≡ suc (off + length ys) = omega arith in
    rw e (ap (◌∷◌ x) (take-overwrite off ys xs (omega (arith, l))))

-- Bytes that reach to the end or beyond replace all.
overwrite_all : (ys xs : List ℕ) → length xs ≤ length ys → overwrite zero ys xs ≡ ys
unfolding overwrite
overwrite_all [] [] l = refl
overwrite_all [] (x ∷ xs) l = absurd (omega (arith, l))
overwrite_all (y ∷ ys) [] l = ap (◌∷◌ y) (overwrite_all ys [] (omega arith))
overwrite_all (y ∷ ys) (x ∷ xs) l = ap (◌∷◌ y) (overwrite_all ys xs (omega (arith, l)))

-- The tail is moved up, and the bytes are written before it.
inserted_front :
    (ys ts xs : List ℕ)
    → length xs ≤ length ys + length ts
    → overwrite zero ys (overwrite (length ys) ts xs) ≡ ys ++ ts
unfolding overwrite
inserted_front [] ts xs l = overwrite_all ts xs (omega (arith, l))
inserted_front (y ∷ ys) ts [] l = ap (◌∷◌ y) (inserted_front ys ts [] (omega arith))
inserted_front (y ∷ ys) ts (x ∷ xs) l = ap (◌∷◌ y) (inserted_front ys ts xs (omega (arith, l)))

inserted :
    (pos : ℕ) (ys xs : List ℕ)
    → pos ≤ length xs
    → overwrite pos ys (overwrite (pos + length ys) (drop pos xs) xs)
      ≡ take pos xs ++ (ys ++ drop pos xs)
unfolding overwrite
inserted zero ys xs l =
    let e : 0 + length ys ≡ length ys = omega arith in rw e (inserted_front ys xs xs (omega arith))
inserted (suc pos) ys [] l = absurd (omega (arith, l))
inserted (suc pos) ys (x ∷ xs) l =
    let e : suc pos + length ys ≡ suc (pos + length ys) = omega arith in
    rw e (ap (◌∷◌ x) (inserted pos ys xs (omega (arith, l))))

some_if :
    (b : Bool) (xs ys : List ℕ)
    → (b ≡ true → xs ≡ ys)
    → (if b then some xs else none) ≡ (if b then some ys else none)
some_if true xs ys e = ap some (e refl)
some_if false xs ys e = refl

pub edit_bytes-edited : (d : Edit) (xs : List ℕ) → edit_bytes d xs ≡ edited d xs
unfolding edit_bytes edited
edit_bytes-edited touch xs = refl
edit_bytes-edited clear xs = refl
edit_bytes-edited (reserves n) xs = refl
edit_bytes-edited (replace ys) xs =
    let e : length ys ≡ 0 + length ys = omega arith in
    ap some (ap (λ n. take n (overwrite 0 ys xs)) e ∙ take-overwrite zero ys xs (omega arith))
edit_bytes-edited (insert pos ys) xs =
    some_if (leb pos (length xs)) _ _ (λ t. inserted pos ys xs (ground (arith, t)))
edit_bytes-edited (erase pos len) xs = some_if (leb (pos + len) (length xs)) _ _ (λ t.
    let l : pos + len ≤ length xs = ground (arith, t) in
    let e : length xs - len ≡ pos + length (drop (pos + len) xs) =
      omega (arith, l, length-drop (pos + len) xs) in
    rw e (take-overwrite pos (drop (pos + len) xs) xs (omega (arith, l))))
edit_bytes-edited (resize n junk) xs = ap some (sized-uncovered n junk xs)
