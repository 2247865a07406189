-- ===== src/Queue.antt =====
-- util/queue.h: the queue between the threads of the player and the recorder. A function here is
-- what a call does while it holds the mutex; where it waits on a condition variable the call is cut
-- in two, before the wait and after it.
pub mod Runs
pub mod Giving
pub mod Capacity
use live_streaming.Base.{
  ℕ, ◌+◌, Bool, true, false, List, [], ◌∷◌, ◌++◌, ◌==◌, ltb, leb, ◌&&◌, not, if◌then◌else◌, length,
  Option, none, some,
}

-- A capacity of 0 is no bound.
pub record Queue {ℓ} (A : Type ℓ) : Type ℓ where
  pub q : List A
  pub capacity : ℕ

-- What a call notifies when it has let the mutex go.
pub record Signals : Type 0 where
  pub get : Bool
  pub put : Bool

-- The state of the queue and the signals after a call, with its value.
abbrev pub Done {ℓ κ} : Type ℓ → Type κ → Type (ℓ ⊔ κ)
Done A B = B × Queue A × Signals

module _ {ℓ} {A : Type ℓ} where
  unfoldable pub new_queue : ℕ → Queue A
  new_queue cap = record { q = []; capacity = cap }

  unfoldable pub size : Queue A → ℕ
  size s = length s.q

  -- The predicate of the waits in Put and TimedPut.
  unfoldable pub has_room : Queue A → Bool
  unfolding size
  has_room s = ltb (size s) s.capacity

  -- What follows the wait in Put of a vector: all goes in, whatever the capacity.
  unfoldable pub put_all_now : List A → Queue A → Done A ℕ
  put_all_now ts s =
      let q = s.q ++ ts in (length q, record s { q = q }, record { get = true; put = false })

  -- Put of a vector; `none` if it has to wait for room.
  unfoldable pub put_all : List A → Queue A → Option (Done A ℕ)
  unfolding put_all_now has_room size
  put_all ts s =
      if not (s.capacity == 0) && ltb s.capacity (length ts + size s) && not (has_room s)
      then none
      else some (put_all_now ts s)

  unfoldable pub put_now : A → Queue A → Done A ℕ
  put_now t s =
      let q = s.q ++ t ∷ [] in (length q, record s { q = q }, record { get = true; put = false })

  -- Put of an item; `none` if it has to wait for room.
  unfoldable pub put : A → Queue A → Option (Done A ℕ)
  unfolding put_now has_room size
  put t s =
      if not (s.capacity == 0) && leb s.capacity (size s) && not (has_room s)
      then none
      else some (put_now t s)

  -- TimedPut after its wait, however that ended.
  unfoldable pub timed_put_now : A → Queue A → Done A Bool
  unfolding size
  timed_put_now t s =
      if not (s.capacity == 0) && leb s.capacity (size s)
      then (false, s, record { get = false; put = false })
      else (true, record s { q = s.q ++ t ∷ [] }, record { get = true; put = false })

  -- TimedPut; `none` if it waits first.
  unfoldable pub timed_put : A → Queue A → Option (Done A Bool)
  unfolding timed_put_now has_room size
  timed_put t s =
      if not (s.capacity == 0) && leb s.capacity (size s) && not (has_room s)
      then none
      else some (timed_put_now t s)

  -- TryToGet, and what follows the wait in TimedGet and Get.
  unfoldable pub try_to_get : Queue A → Done A (Option A)
  try_to_get s = elim (s.q) [
    | [] ↦ (none, s, record { get = false; put = false })
    | t ∷ rest ↦ (
      some t,
      record s { q = rest },
      record { get = not (length rest == 0); put = ltb (length rest) s.capacity },
    )
  ]

  -- Get and TimedGet; `none` if they wait first.
  unfoldable pub get : Queue A → Option (Done A (Option A))
  unfolding try_to_get
  get s = if length s.q == 0 then none else some (try_to_get s)

  -- Clear notifies nobody.
  unfoldable pub clear : Queue A → Queue A
  clear s = record s { q = [] }
