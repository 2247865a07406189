-- ===== src/Command/Wire.antt =====
-- The bytes of an ActionScript object, the objects that survive the wire, and dictionaries with
-- distinct keys.
use live_streaming.Base.{
  ℕ, ◌^◌, ◌<◌, ◌≡◌, refl, List, [], ◌∷◌, ◌++◌, Bool, false, ◌||◌, ◌==◌, if◌then◌else◌, length,
  bytes_eq, arith,
}
use live_streaming.Stream.{be_bytes}
use live_streaming.Command.Marker
use live_streaming.Command.{
  ActionScriptObject, Dict, object, nil, entry, plain, count_entries, insert_entry,
}

unfoldable mutual
  pub encode_object : ActionScriptObject → List ℕ
  encode_object (object m n s d) =
      be_bytes 1 m
      ++ (let entries = encode_entries d in
          if m == Marker.double
          then be_bytes 8 n
          else if m == Marker.boolean
          then be_bytes 1 n
          else if m == Marker.string
          then be_bytes 2 (length s) ++ s
          else if m == Marker.ecma_array
          then be_bytes 4 (count_entries d) ++ (entries ++ (be_bytes 2 0 ++ be_bytes 1 Marker.end))
          else if m == Marker.object
          then entries ++ (be_bytes 2 0 ++ be_bytes 1 Marker.end)
          else [])

  pub encode_entries : Dict → List ℕ
  encode_entries nil = []
  encode_entries (entry name value rest) =
      let first = encode_object value in
      let more = encode_entries rest in be_bytes 2 (length name) ++ (name ++ (first ++ more))

unfoldable pub has_key : List ℕ → Dict → Bool
has_key k nil = false
has_key k (entry j value rest) = bytes_eq j k || has_key k rest

-- The values that a sender can mean: one of the six kinds, with the fields of the others unused,
-- lengths that fit their fields, and a dictionary whose keys differ.
mutual
  pub data IsWire : ActionScriptObject → Type 0 where
    wire_double : (n : ℕ) → n < 256 ^ 8 → IsWire (object Marker.double n [] nil)
    wire_boolean : (n : ℕ) → n < 256 ^ 1 → IsWire (object Marker.boolean n [] nil)
    wire_string : (s : List ℕ) → length s < 256 ^ 2 → IsWire (object Marker.string 0 s nil)
    wire_object : (d : Dict) → IsWireDict d → IsWire (object Marker.object 0 [] d)
    wire_array :
        (d : Dict)
        → count_entries d < 256 ^ 4
        → IsWireDict d
        → IsWire (object Marker.ecma_array 0 [] d)
    wire_null : IsWire (plain Marker.null_type)

  pub data IsWireDict : Dict → Type 0 where
    no_entries : IsWireDict nil
    with_entry :
        (name : List ℕ) (value : ActionScriptObject) (rest : Dict)
        → length name < 256 ^ 2
        → has_key name rest ≡ false
        → IsWire value
        → IsWireDict rest
        → IsWireDict (entry name value rest)

unfoldable pub append_dict : Dict → Dict → Dict
append_dict nil e = e
append_dict (entry k v d) e = entry k v (append_dict d e)

-- No key of the second is a key of the first.
abbrev pub Disjoint : Dict → Dict → Type 0
Disjoint acc nil = Unit {0}
Disjoint acc (entry k v rest) = (has_key k acc ≡ false) × Disjoint acc rest

pub Disjoint-nil : (d : Dict) → Disjoint nil d
unfolding has_key
Disjoint-nil nil = tt
Disjoint-nil (entry k v rest) = (refl, Disjoint-nil rest)

pub append_dict-nil : (d : Dict) → append_dict d nil ≡ d
unfolding append_dict
append_dict-nil nil = refl
append_dict-nil (entry k v d) = rw (append_dict-nil d)

pub append_dict_assoc :
    (a b c : Dict) → append_dict (append_dict a b) c ≡ append_dict a (append_dict b c)
unfolding append_dict
append_dict_assoc nil b c = refl
append_dict_assoc (entry k v a) b c = rw (append_dict_assoc a b c)

pub bytes_eq_comm : (xs ys : List ℕ) → bytes_eq xs ys ≡ bytes_eq ys xs
bytes_eq_comm [] [] = refl
bytes_eq_comm [] (y ∷ ys) = refl
bytes_eq_comm (x ∷ xs) [] = refl
bytes_eq_comm (x ∷ xs) (y ∷ ys) = ground (arith, bytes_eq_comm xs ys)

-- A new key goes to the end.
pub insert_entry-new :
    (k : List ℕ) (v : ActionScriptObject) (acc : Dict)
    → has_key k acc ≡ false
    → insert_entry k v acc ≡ append_dict acc (entry k v nil)
unfolding insert_entry append_dict has_key
insert_entry-new k v nil h = refl
insert_entry-new k v (entry j w acc) h = ground (arith, insert_entry-new k v acc)

has_key-append :
    (j k : List ℕ) (v : ActionScriptObject) (acc : Dict)
    → has_key j acc ≡ false
    → bytes_eq k j ≡ false
    → has_key j (append_dict acc (entry k v nil)) ≡ false
unfolding append_dict has_key
has_key-append j k v nil h e = ground arith
has_key-append j k v (entry i w acc) h e = ground (arith, has_key-append j k v acc)

pub Disjoint-append :
    (k : List ℕ) (v : ActionScriptObject) (acc rest : Dict)
    → Disjoint acc rest
    → has_key k rest ≡ false
    → Disjoint (append_dict acc (entry k v nil)) rest
unfolding has_key
Disjoint-append k v acc nil h e = tt
Disjoint-append k v acc (entry j w rest) h e = (
  has_key-append j k v acc h.0 (ground (arith, bytes_eq_comm k j)),
  Disjoint-append k v acc rest h.1 (ground arith),
)
