-- ===== src/Room/Manager/Invariant.antt =====
-- The invariant of the room manager (server/room.h), and its calls one by one.
use live_streaming.Base.{
  ℕ, zero, suc, ◌<◌, ◌≡◌, refl, ap, ◌∙◌, Bool, true, false, List, [], ◌∷◌, ◌==◌, if◌then◌else◌, leb,
  length, get_elem?, set, Option, none, some, ℤ, pos, negsuc, arith, Bool-cases, inl, inr,
  length-set, ==_iff,
}
use live_streaming.Room.{Room, new_room}
use live_streaming.Room.Manager.{
  RoomManager, new_manager, in_pool, put_room, create_room, close_room,
}

-- Each id once.
abbrev pub Distinct : List ℕ → Type 0
Distinct [] = Unit {0}
Distinct (i ∷ rest) = (in_pool i rest ≡ false) × Distinct rest

abbrev pub is_none {ℓ} : {A : Type ℓ} → Option A → Bool
is_none none = true
is_none (some a) = false

-- The slot is there and null.
abbrev pub vacant : List (Option Room) → ℕ → Bool
vacant [] i = false
vacant (x ∷ xs) zero = is_none x
vacant (x ∷ xs) (suc i) = vacant xs i

-- Four slots, each id at most once in the pool, and an id is in the pool just when its slot is null.
pub record IsValid (m : RoomManager) : Type 0 where
  pub four : length m.rooms ≡ 4
  pub distinct : Distinct m.id_pool
  pub free : (id : ℕ) → in_pool id m.id_pool ≡ vacant m.rooms id

pub new_manager-IsValid : IsValid new_manager
unfolding new_manager in_pool
new_manager-IsValid = record {
  four = refl;
  distinct = (refl, (refl, (refl, (refl, tt))));
  free = at;
}
  where
    at : (id : ℕ) → in_pool id new_manager.id_pool ≡ vacant new_manager.rooms id
    at zero = refl
    at (suc zero) = refl
    at (suc (suc zero)) = refl
    at (suc (suc (suc zero))) = refl
    at (suc (suc (suc (suc n)))) = ground arith

vacant-lt : (xs : List (Option Room)) (i : ℕ) → vacant xs i ≡ true → i < length xs
vacant-lt [] i h = absurd (ground arith)
vacant-lt (x ∷ xs) zero h = omega arith
vacant-lt (x ∷ xs) (suc i) h = omega (arith, vacant-lt xs i h)

vacant-set :
    (xs : List (Option Room)) (i j : ℕ) (v : Option Room)
    → i < length xs
    → vacant (set xs i v) j ≡ (if i == j then is_none v else vacant xs j)
vacant-set [] i j v h = absurd (omega arith)
vacant-set (x ∷ xs) zero zero v h = refl
vacant-set (x ∷ xs) zero (suc j) v h = ground arith
vacant-set (x ∷ xs) (suc i) zero v h = ground arith
vacant-set (x ∷ xs) (suc i) (suc j) v h = ground (arith, vacant-set xs i j v)

in_pool_eq : (i j : ℕ) (pool : List ℕ) → (i == j) ≡ true → in_pool i pool ≡ in_pool j pool
in_pool_eq i j pool h = ap (λ k. in_pool k pool) ((==_iff i j).0 h)

vacant_eq :
    (i j : ℕ) (rooms : List (Option Room)) → (i == j) ≡ true → vacant rooms i ≡ vacant rooms j
vacant_eq i j rooms h = ap (vacant rooms) ((==_iff i j).0 h)

create-IsValid :
    (pool : List ℕ) (rooms : List (Option Room))
    → let m : RoomManager = record { id_pool = pool; rooms = rooms } in
      IsValid m → IsValid (create_room m).0
unfolding create_room in_pool
create-IsValid [] rooms v = v
create-IsValid (id ∷ rest) rooms v =
    let i = vacant-lt rooms id (ground (arith, v.free id)) in
    record {
      four = length-set rooms id (some new_room) ∙ v.four;
      distinct = v.distinct.1;
      free = λ j. ground (
        arith,
        v.free j,
        vacant-set rooms id j (some new_room) i,
        in_pool_eq id j rest,
        v.distinct.0,
      );
    }

-- Creating a room keeps the pool and the slots in step.
pub create_room-IsValid : (m : RoomManager) → IsValid m → IsValid (create_room m).0
create_room-IsValid m v = create-IsValid m.id_pool m.rooms v

-- So does closing one, whatever the id.
pub close_room-IsValid : (id : ℤ) (m : RoomManager) → IsValid m → IsValid (close_room id m)
unfolding close_room in_pool
close_room-IsValid (negsuc n) m v = v
close_room-IsValid (pos id) m v = elim (Bool-cases (leb (length m.rooms) id)) [
  | inl out ↦ rw out v
  | inr inside ↦ elim (Bool-cases (in_pool id m.id_pool)) [
    | inl closed ↦ rw (inside, closed) v
    | inr live ↦
        let i : id < length m.rooms = ground arith in
        rw (inside, live)
          (record {
            four = length-set m.rooms id none ∙ v.four;
            distinct = (live, v.distinct);
            free = λ j. ground (arith, v.free j, vacant-set m.rooms id j none i);
          })
  ]
]

occupied :
    (rooms : List (Option Room)) (id : ℕ) (r : Room)
    → get_elem? rooms id ≡ some (some r)
    → (id < length rooms) × (vacant rooms id ≡ false)
occupied [] id r h = cc
occupied (x ∷ xs) zero r h = (omega arith, ground arith)
occupied (x ∷ xs) (suc id) r h = let (i, o) = occupied xs id r h in (omega arith, o)

-- A room in its slot is replaced.
pub put_room-IsValid :
    (id : ℕ) (r r' : Room) (m : RoomManager)
    → get_elem? m.rooms id ≡ some (some r)
    → IsValid m
    → IsValid (put_room (pos id) r' m)
put_room-IsValid id r r' m h v =
    let (i, o) = occupied m.rooms id r h in
    record {
      four = length-set m.rooms id (some r') ∙ v.four;
      distinct = v.distinct;
      free = λ j.
          ground (arith, v.free j, vacant-set m.rooms id j (some r') i, vacant_eq id j m.rooms, o);
    }
