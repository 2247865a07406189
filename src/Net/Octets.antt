-- ===== src/Net/Octets.antt =====
-- util/net/octets.h, class Octets: byte strings that share a counted block until one is changed. An
-- address is a number, and malloc returns one that was not used before; that of Rep::null is 0.
pub mod Counting
pub mod Blocks
pub mod Acquiring
pub mod Editing
pub mod Changing
pub mod Values
pub mod Operations
pub mod Refinement
use live_streaming.Base.{
  ℕ, zero, suc, ◌+◌, ◌-◌, ◌*◌, Bool, true, false, ◌==◌, ltb, leb, if◌then◌else◌, List, [], ◌∷◌,
  ◌++◌, length, take, drop, get_elem?, set, Option, none, some,
}
use live_streaming.Result.{Result, ok, faults, ◌>>=◌}

-- Octets::Rep with its data, of which the bytes up to `len` are listed. Its lock makes retain and
-- release one step each.
pub record Rep : Type 0 where
  pub cap : ℕ
  pub ref : ℕ
  pub bytes : List ℕ

-- A freed block is `none`. `freed_unlocks` says whether the lock in the memory of a freed block can
-- be unlocked without harm; by the C++ standard this is undefined behaviour.
pub record Heap : Type 0 where
  pub cell : ℕ → Option Rep
  pub next : ℕ
  pub freed_unlocks : Bool

unfoldable pub put_cell : ℕ → Option Rep → (ℕ → Option Rep) → ℕ → Option Rep
put_cell p o cell q = if p == q then o else cell q

-- A block is read or written; one that is not there is undefined behaviour.
unfoldable pub load : ℕ → Heap → Result Rep
load p h = elim (h.cell p) [ none ↦ faults | some r ↦ ok r ]

unfoldable pub store : ℕ → Option Rep → Heap → Heap
unfolding put_cell
store p o h = record h { cell = put_cell p o h.cell }

unfoldable pub retain : ℕ → Heap → Result Heap
unfolding load store
retain p h = do r ← load p h; ok (store p (some (record r { ref = r.ref + 1 })) h)

-- The destructor of release's guard, which unlocks the lock in the block that was deleted.
unfoldable pub unlock_freed : Heap → Result Heap
unlock_freed h = if h.freed_unlocks then ok h else faults

unfoldable pub release : ℕ → Heap → Result Heap
unfolding load store unlock_freed
release p h = do
  r ← load p h
  (if r.ref - 1 == 0
      then unlock_freed (store p none h)
      else ok (store p (some (record r { ref = r.ref - 1 })) h))

unfoldable pub create : ℕ → Heap → ℕ × Heap
unfolding store
create cap h = (
  h.next,
  record (store h.next (some (record { cap = cap; ref = 1; bytes = [] })) h) { next = h.next + 1 },
)

-- The bytes are copied into the block, and `len` is set; past the block's end it is undefined behaviour.
unfoldable pub fill : ℕ → List ℕ → Heap → Result Heap
unfolding load store
fill p bytes h = do
  r ← load p h
  if leb (length bytes) r.cap then ok (store p (some (record r { bytes = bytes })) h) else faults

-- A new block with the same bytes.
abbrev pub created : ℕ → List ℕ → Heap → Result (ℕ × Heap)
created cap bytes h = let (q, h') = create cap h in fill q bytes h' >>= λ h''. ok (q, h'')

unfoldable pub clone : ℕ → Heap → Result (ℕ × Heap)
unfolding create fill load
clone p h = do r ← load p h; created r.cap r.bytes h

-- A caller that was given a copy lets go of the block that it had.
abbrev pub moved : ℕ → Result (ℕ × Heap) → Result (ℕ × Heap)
moved p r = r >>= λ (q, h). release p h >>= λ h'. ok (q, h')

unfoldable pub unique : ℕ → Heap → Result (ℕ × Heap)
unfolding load clone release
unique p h = do r ← load p h; if ltb 1 r.ref then moved p (clone p h) else ok (p, h)

-- `while (size > tmp) tmp <<= 1;` for sizes up to 2 ^ 63, with as much fuel as the size.
unfoldable pub frob_from : ℕ → ℕ → ℕ → ℕ
frob_from zero size tmp = tmp
frob_from (suc fuel) size tmp =
    let rest = frob_from fuel size (tmp * 2) in if ltb tmp size then rest else tmp

unfoldable pub frob_size : ℕ → ℕ
unfolding frob_from
frob_size size = frob_from size size 16

unfoldable pub reserve : ℕ → ℕ → Heap → Result (ℕ × Heap)
unfolding load create fill release unique frob_size
reserve size p h = do
  r ← load p h
  let cap = frob_size size
  if ltb r.cap cap then moved p (created cap r.bytes h) else unique p h

-- The objects, in the order of construction, with their base pointers; a destroyed one is `none`.
pub record Objects : Type 0 where
  pub heap : Heap
  pub base : List (Option ℕ)

abbrev pub new_objects : Bool → Objects
new_objects freed_unlocks = record {
  heap = record {
    cell = put_cell 0 (some (record { cap = 0; ref = 1; bytes = [] })) (λ p. none);
    next = 1;
    freed_unlocks = freed_unlocks;
  };
  base = [];
}

-- What changes the bytes of one object, with positions as offsets: begin() and end(), clear, reserve,
-- replace, insert, erase, and resize, which may uncover what `junk` says the memory holds.
pub data Edit : Type 0 where
  touch clear : Edit
  reserves : ℕ → Edit
  replace : List ℕ → Edit
  insert : ℕ → List ℕ → Edit
  erase : ℕ → ℕ → Edit
  resize : ℕ → (ℕ → ℕ) → Edit

-- memcpy and memmove: bytes are written from an offset on. Memory that nothing was written to is
-- listed as 0, and overwritten before it is seen.
unfoldable pub overwrite : ℕ → List ℕ → List ℕ → List ℕ
overwrite zero [] xs = xs
overwrite zero (y ∷ ys) [] = y ∷ overwrite zero ys []
overwrite zero (y ∷ ys) (x ∷ xs) = y ∷ overwrite zero ys xs
overwrite (suc off) ys [] = 0 ∷ overwrite off ys []
overwrite (suc off) ys (x ∷ xs) = x ∷ overwrite off ys xs

-- The bytes behind the end that a greater length uncovers.
unfoldable pub uncovered : ℕ → (ℕ → ℕ) → List ℕ
uncovered zero junk = []
uncovered (suc n) junk = junk n ∷ uncovered n junk

-- What the calls do to the bytes of the block, once it is the object's own: the bytes then, or `none`
-- where a position is out of range.
unfoldable pub edit_bytes : Edit → List ℕ → Option (List ℕ)
unfolding overwrite uncovered
edit_bytes touch xs = some xs
edit_bytes clear xs = some (take 0 xs)
edit_bytes (reserves n) xs = some xs
edit_bytes (replace ys) xs = some (take (length ys) (overwrite 0 ys xs))
edit_bytes (insert pos ys) xs =
    let shifted = overwrite (pos + length ys) (drop pos xs) xs in
    if leb pos (length xs) then some (overwrite pos ys shifted) else none
edit_bytes (erase pos len) xs =
    if leb (pos + len) (length xs)
    then some (take (length xs - len) (overwrite pos (drop (pos + len) xs) xs))
    else none
edit_bytes (resize n junk) xs = some (take n xs ++ uncovered (n - length xs) junk)

-- What is called first: reserve with a size, or unique.
unfoldable pub acquire : Edit → List ℕ → ℕ → Heap → Result (ℕ × Heap)
unfolding reserve unique
acquire touch xs = unique
acquire clear xs = unique
acquire (reserves n) xs = reserve n
acquire (replace ys) xs = reserve (length ys)
acquire (insert pos ys) xs = reserve (length xs + length ys)
acquire (erase pos len) xs = unique
acquire (resize n junk) xs = reserve n

-- The block is made the object's own, and then its bytes are changed.
unfoldable pub change : Edit → ℕ → Heap → Result (ℕ × Heap)
unfolding load acquire fill edit_bytes
change e p h = do
  r ← load p h
  elim (edit_bytes e r.bytes) [
    | none ↦ faults
    | some ys ↦ acquire e r.bytes p h >>= λ (q, h'). fill q ys h' >>= λ h''. ok (q, h'')
  ]

-- The constructors, operator=, swap, the destructor, and an edit of an object.
pub data Call : Type 0 where
  construct : Call
  construct_sized : ℕ → Call
  construct_from : List ℕ → Call
  copy : ℕ → Call
  assign swap : ℕ → ℕ → Call
  destroy : ℕ → Call
  edits : ℕ → Edit → Call

-- The base pointer of an object that is there.
unfoldable pub base_of : ℕ → Objects → Result ℕ
base_of i s = elim (get_elem? s.base i) [
  | none ↦ faults
  | some o ↦ elim o [ none ↦ faults | some p ↦ ok p ]
]

unfoldable pub call : Call → Objects → Result Objects
unfolding base_of retain release create fill change
call construct s = do h ← retain 0 s.heap; ok (record { heap = h; base = s.base ++ some 0 ∷ [] })
call (construct_sized n) s = do
  (q, h) ← created n [] s.heap
  ok (record { heap = h; base = s.base ++ some q ∷ [] })
call (construct_from xs) s = do
  (q, h) ← created (length xs) xs s.heap
  ok (record { heap = h; base = s.base ++ some q ∷ [] })
call (copy j) s = do
  p ← base_of j s
  h ← retain p s.heap
  ok (record { heap = h; base = s.base ++ some p ∷ [] })
call (assign i j) s = do
  p ← base_of i s
  q ← base_of j s
  if i == j then ok s else (do
    h ← release p s.heap
    h' ← retain q h
    ok (record { heap = h'; base = set s.base i (some q) }))
call (swap i j) s = do
  p ← base_of i s
  q ← base_of j s
  ok (record s { base = set (set s.base i (some q)) j (some p) })
call (destroy i) s = do
  p ← base_of i s
  h ← release p s.heap
  ok (record { heap = h; base = set s.base i none })
call (edits i e) s = do
  p ← base_of i s
  (q, h) ← change e p s.heap
  ok (record { heap = h; base = set s.base i (some q) })

unfoldable pub calls : List Call → Objects → Result Objects
unfolding call
calls [] s = ok s
calls (c ∷ cs) s = call c s >>= calls cs
