-- ===== src/Room/Manager/Calls.antt =====
-- The calls that sessions make on the room manager, one after another.
use live_streaming.Base.{
  ℕ, ◌/◌, ◌≡◌, refl, Bool, false, List, [], ◌∷◌, ◌==◌, length, get_elem?, Option, none, some, ℤ,
  pos, negsuc, arith, Bool-cases, inl, inr, suc,
}
use live_streaming.Result.{Result, ok, faults, ◌>>=◌}
use live_streaming.Room.{Room, Send}
use live_streaming.Room
use live_streaming.Room.Manager.{
  RoomManager, new_manager, slot, room_at, put_room, create_room, close_room, enter_room,
  leave_room, init_meta_data, add_data,
}
use live_streaming.Room.Manager.Invariant.{
  IsValid, new_manager-IsValid, create_room-IsValid, close_room-IsValid, put_room-IsValid,
}

pub data Call : Type 0 where
  creates : Call
  closes : ℤ → Call
  enters leaves : ℤ → ℕ → Call
  inits : ℤ → List ℕ → Call
  adds : ℤ → ℕ → ℕ → List ℕ → Call

unfoldable pub call : RoomManager → Call → Result RoomManager
call m creates = ok (create_room m).0
call m (closes id) = ok (close_room id m)
call m (enters id session) = enter_room id session m >>= λ r. ok r.0
call m (leaves id session) = leave_room id session m
call m (inits id mp) = init_meta_data id mp m >>= λ r. ok r.0
call m (adds id type timestamp payload) = add_data id type timestamp payload m >>= λ r. ok r.0

unfoldable pub calls : RoomManager → List Call → Result RoomManager
calls m [] = ok m
calls m (c ∷ cs) = call m c >>= λ m'. calls m' cs

-- The call returned something of which P holds, or used a room that is not there.
pub data Ensures {ℓ} {A : Type 0} (P : A → Type ℓ) : Result A → Type ℓ where
  holds : (a : A) → P a → Ensures P (ok a)
  faulted : Ensures P faults

pub Ensures-bind {ℓ κ} :
    {A B : Type 0} {P : A → Type ℓ} {Q : B → Type κ} (m : Result A) (f : A → Result B)
    → Ensures P m
    → ((a : A) → m ≡ ok a → P a → Ensures Q (f a))
    → Ensures Q (m >>= f)
Ensures-bind m f (holds a p) k = k a refl p
Ensures-bind m f faulted k = faulted

-- The slot read is one of the manager's.
pub slot-Ensures :
    (id : ℕ) (m : RoomManager) → Ensures (λ r. get_elem? m.rooms id ≡ some r) (slot (pos id) m)
unfolding slot
slot-Ensures id m = go (get_elem? m.rooms id) refl
  where
    go :
        (o : Option (Option Room))
        → get_elem? m.rooms id ≡ o
        → Ensures (λ r. get_elem? m.rooms id ≡ some r) (slot (pos id) m)
    go none e = rw (e, slot) faulted
    go (some r) e = rw (e, slot) (holds r refl)

pub room_at-Ensures :
    (id : ℕ) (m : RoomManager)
    → Ensures (λ r. get_elem? m.rooms id ≡ some (some r)) (room_at (pos id) m)
unfolding room_at
room_at-Ensures id m = Ensures-bind (slot (pos id) m) _ (slot-Ensures id m) at
  where
    at :
        (o : Option Room)
        → slot (pos id) m ≡ ok o
        → get_elem? m.rooms id ≡ some o
        → Ensures
            (λ r. get_elem? m.rooms id ≡ some (some r))
            (elim o as (λ _. Result Room) [ none ↦ faults | some r ↦ ok r ])
    at none _ e = faulted
    at (some r) _ e = holds r e

-- Room's AddData returns, or reads past a one-byte payload.
room_data-Ensures :
    (type t : ℕ) (p : List ℕ) (r : Room) → Ensures (λ _. Unit {0}) (Room.add_data type t p r)
unfolding Room.add_data Room.is_aac_seq_header
room_data-Ensures type t [] r = holds _ tt
room_data-Ensures type t (first ∷ []) r = elim (Bool-cases (type == 9)) [
  | inl e ↦ rw e (holds _ tt)
  | inr e ↦ elim (Bool-cases (type == 8)) [
    | inl g ↦ elim (Bool-cases (first / 16 == 10)) [
      | inl h ↦ rw (e, g, h) faulted
      | inr h ↦ rw (e, g, h) (holds _ tt)
    ]
    | inr g ↦ rw (e, g) (holds _ tt)
  ]
]
room_data-Ensures type t (first ∷ second ∷ rest) r =
    let z : (suc (suc (length rest)) == 0) ≡ false = ground arith in
    elim (Bool-cases (type == 9)) [
      | inl e ↦ rw (z, e) (holds _ tt)
      | inr e ↦ elim (Bool-cases (type == 8)) [
        | inl g ↦ rw (z, e, g) (holds _ tt)
        | inr g ↦ rw (z, e, g) (holds _ tt)
      ]
    ]

module _ (m : RoomManager) (v : IsValid m) where
  put-Ensures :
      {B : Type 0} (id : ℕ) (r r' : Room) (b : B)
      → get_elem? m.rooms id ≡ some (some r)
      → Ensures (λ (x : RoomManager × B). IsValid x.0) (ok (put_room (pos id) r' m, b))
  put-Ensures id r r' b e = holds _ (put_room-IsValid id r r' m e v)

  enter_room-Ensures :
      (id : ℤ) (s : ℕ)
      → Ensures (λ (x : RoomManager × Bool × List Send). IsValid x.0) (enter_room id s m)
  unfolding enter_room slot
  enter_room-Ensures (negsuc n) s = faulted
  enter_room-Ensures (pos id) s = Ensures-bind (slot (pos id) m) _ (slot-Ensures id m) at
    where
      at :
          (o : Option Room)
          → slot (pos id) m ≡ ok o
          → get_elem? m.rooms id ≡ some o
          → Ensures
              (λ (x : RoomManager × Bool × List Send). IsValid x.0)
              (elim o as (λ _. Result (RoomManager × Bool × List Send)) [
                | none ↦ ok (m, false, [])
                | some r ↦
                    ok (
                      put_room (pos id) (Room.enter s r).0 m,
                      (Room.enter s r).1,
                      (Room.enter s r).2,
                    )
              ])
      at none _ e = holds _ v
      at (some r) _ e = holds _ (put_room-IsValid id r (Room.enter s r).0 m e v)

  leave_room-Ensures : (id : ℤ) (s : ℕ) → Ensures IsValid (leave_room id s m)
  unfolding leave_room slot
  leave_room-Ensures (negsuc n) s = faulted
  leave_room-Ensures (pos id) s = Ensures-bind (slot (pos id) m) _ (slot-Ensures id m) at
    where
      at :
          (o : Option Room)
          → slot (pos id) m ≡ ok o
          → get_elem? m.rooms id ≡ some o
          → Ensures IsValid (elim o as (λ _. Result RoomManager) [
            | none ↦ ok m
            | some r ↦ ok (put_room (pos id) (Room.leave s r) m)
          ])
      at none _ e = holds _ v
      at (some r) _ e = holds _ (put_room-IsValid id r (Room.leave s r) m e v)

  init_meta_data-Ensures :
      (id : ℤ) (mp : List ℕ)
      → Ensures (λ (x : RoomManager × List Send). IsValid x.0) (init_meta_data id mp m)
  unfolding init_meta_data room_at slot
  init_meta_data-Ensures (negsuc n) mp = faulted
  init_meta_data-Ensures (pos id) mp =
      Ensures-bind (room_at (pos id) m) _ (room_at-Ensures id m)
        λ r _ e. holds _ (put_room-IsValid id r (Room.init_meta_data mp r).0 m e v)

  add_data-Ensures :
      (id : ℤ) (type t : ℕ) (p : List ℕ)
      → Ensures (λ (x : RoomManager × List Send). IsValid x.0) (add_data id type t p m)
  unfolding add_data room_at slot
  add_data-Ensures (negsuc n) type t p = faulted
  add_data-Ensures (pos id) type t p =
      Ensures-bind (room_at (pos id) m) _ (room_at-Ensures id m) λ r _ e.
        Ensures-bind (Room.add_data type t p r) _ (room_data-Ensures type t p r)
          λ x _ _. holds _ (put_room-IsValid id r x.0 m e v)

  call-Ensures : (c : Call) → Ensures IsValid (call m c)
  unfolding call
  call-Ensures creates = holds _ (create_room-IsValid m v)
  call-Ensures (closes id) = holds _ (close_room-IsValid id m v)
  call-Ensures (enters id s) =
      Ensures-bind (enter_room id s m) _ (enter_room-Ensures id s) λ x _ w. holds _ w
  call-Ensures (leaves id s) = leave_room-Ensures id s
  call-Ensures (inits id mp) =
      Ensures-bind (init_meta_data id mp m) _ (init_meta_data-Ensures id mp) λ x _ w. holds _ w
  call-Ensures (adds id type t p) =
      Ensures-bind (add_data id type t p m) _ (add_data-Ensures id type t p) λ x _ w. holds _ w

-- So do calls on a valid manager.
pub calls-Ensures : (cs : List Call) (m : RoomManager) → IsValid m → Ensures IsValid (calls m cs)
unfolding calls
calls-Ensures [] m v = holds m v
calls-Ensures (c ∷ cs) m v =
    Ensures-bind (call m c) _ (call-Ensures m v c) λ m' _ w. calls-Ensures cs m' w

-- Calls on a new manager, whatever they are, end in a manager with four slots, whose pool has no id
-- twice and has an id just when its slot is null, or else use a slot, a room or a byte that is not
-- there; nothing else comes of them.
pub calls-new_manager : (cs : List Call) → Ensures IsValid (calls new_manager cs)
calls-new_manager cs = calls-Ensures cs new_manager new_manager-IsValid
