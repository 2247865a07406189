-- ===== src/Command/RoundTrip.antt =====
-- Objects as they travel (server/command_message.cc).
use live_streaming.Base.{
  ℕ, zero, suc, ◌+◌, ◌^◌, ◌<◌, ◌≤◌, ◌≡◌, refl, ap, sym, ◌∙◌, subst, List, [], ◌++◌, false, ◌==◌,
  length, arith, length-append, append-nil, append_assoc, length-append_bytes,
}
use live_streaming.Stream.{ByteStream, pure, be_bytes, remain}
use live_streaming.Stream.Codec.{
  Encodes, Decodes, push_bytes-Encodes, push_raw-Encodes, pop-Decodes, pop_raw-Decodes,
  pure-Encodes, pure-Decodes, Encodes-then, Decodes-bind, Encodes-eq, Decodes-eq, sizes,
  length-unread, unread,
}
use live_streaming.Command.Marker
use live_streaming.Command.{
  ActionScriptObject, Dict, object, nil, entry, plain, marker, count_entries, insert_entry,
  serialize_object, serialize_entries, pop_string, deserialize_value, deserialize_object,
  deserialize_entries, read_object,
}
use live_streaming.Command.Wire.{
  encode_object, encode_entries, has_key, IsWire, IsWireDict, wire_double, wire_boolean,
  wire_string, wire_object, wire_array, wire_null, no_entries, with_entry, append_dict, Disjoint,
  Disjoint-nil, append_dict-nil, append_dict_assoc, insert_entry-new, Disjoint-append,
}

abbrev terminator : List ℕ
terminator = be_bytes 2 0 ++ be_bytes 1 Marker.end

mutual
  unfolding serialize_object encode_object

  pub serialize_object-Encodes :
      {v : ActionScriptObject} → IsWire v → Encodes (serialize_object v) (encode_object v)
  serialize_object-Encodes (wire_double n h) =
      Encodes-then (push_bytes-Encodes 1 _) (push_bytes-Encodes 8 n)
  serialize_object-Encodes (wire_boolean n h) =
      Encodes-then (push_bytes-Encodes 1 _) (push_bytes-Encodes 1 n)
  serialize_object-Encodes (wire_string s h) =
      Encodes-then (push_bytes-Encodes 1 _)
        (Encodes-then (push_bytes-Encodes 2 _) (push_raw-Encodes s))
  serialize_object-Encodes (wire_object d w) = Encodes-then (push_bytes-Encodes 1 _) (
      Encodes-then pure-Encodes (
        Encodes-then (serialize_entries-Encodes w)
          (Encodes-then (push_bytes-Encodes 2 0) (push_bytes-Encodes 1 Marker.end))))
  serialize_object-Encodes (wire_array d h w) = Encodes-then (push_bytes-Encodes 1 _) (
      Encodes-then (push_bytes-Encodes 4 _) (
        Encodes-then (serialize_entries-Encodes w)
          (Encodes-then (push_bytes-Encodes 2 0) (push_bytes-Encodes 1 Marker.end))))
  serialize_object-Encodes wire_null = Encodes-eq (sym (append-nil _)) (push_bytes-Encodes 1 _)

  pub serialize_entries-Encodes :
      {d : Dict} → IsWireDict d → Encodes (serialize_entries d) (encode_entries d)
  serialize_entries-Encodes no_entries = pure-Encodes
  serialize_entries-Encodes (with_entry name value rest h n v w) =
      Encodes-then (push_bytes-Encodes 2 _) (
        Encodes-then (push_raw-Encodes name)
          (Encodes-then (serialize_object-Encodes v) (serialize_entries-Encodes w)))

remain_pos :
    (bs : ByteStream) (xs rest : List ℕ)
    → unread bs ≡ xs ++ rest
    → 0 < length xs
    → (remain bs == 0) ≡ false
unfolding remain
remain_pos bs xs rest e h =
    ground (arith, sym (length-unread bs) ∙ ap length e, length-append xs rest)

-- A marker byte, and then what it calls for.
object_at :
    (fuel m : ℕ) (ys : List ℕ) (v : ActionScriptObject)
    → m < 256 ^ 1
    → Decodes (deserialize_value m (deserialize_entries fuel nil)) ys v
    → Decodes (deserialize_object (suc fuel)) (be_bytes 1 m ++ ys) v
unfolding deserialize_object
object_at fuel m ys v h d = record {
  run = λ bs rest e.
      let left = remain_pos bs (be_bytes 1 m ++ ys) rest e (omega sizes) in
      rw left ((Decodes-bind _ (pop-Decodes 1 m h) d).run bs rest e);
}

pub pop_string-Decodes :
    (s : List ℕ) → length s < 256 ^ 2 → Decodes pop_string (be_bytes 2 (length s) ++ s) s
unfolding pop_string
pop_string-Decodes s h = Decodes-bind _ (pop-Decodes 2 (length s) h) (pop_raw-Decodes s)

-- An entry of a dictionary, with what follows it.
entry_at :
    (fuel : ℕ) (name : List ℕ) (value : ActionScriptObject) (acc r : Dict) (ys zs : List ℕ)
    → length name < 256 ^ 2
    → marker value == Marker.end ≡ false
    → marker value == Marker.uninit ≡ false
    → Decodes (deserialize_object fuel) ys value
    → Decodes (deserialize_entries fuel (insert_entry name value acc)) zs r
    → Decodes
        (deserialize_entries (suc fuel) acc)
        ((be_bytes 2 (length name) ++ name) ++ (ys ++ zs))
        r
unfolding deserialize_object
entry_at fuel name value acc r ys zs h n u d e =
    Decodes-bind _ (pop_string-Decodes name h) (Decodes-bind _ d (rw (n, u) e))

end_at : (fuel : ℕ) (acc : Dict) → 1 < fuel → Decodes (deserialize_entries fuel acc) terminator acc
unfolding deserialize_entries marker pure
end_at zero acc h = absurd (omega arith)
end_at (suc zero) acc h = absurd (omega arith)
end_at (suc (suc fuel)) acc h =
    Decodes-eq (ap (◌++◌ (be_bytes 2 0)) (append-nil _ ∙ append-nil _)) (
      Decodes-bind _ (Decodes-eq (append-nil _) (pop_string-Decodes [] (omega arith))) (
        Decodes-bind _
          (object_at fuel Marker.end [] (plain Marker.end) (omega arith)
            (unfold deserialize_value in pure-Decodes (plain Marker.end)))
          (pure-Decodes acc)))

pub wire_marker :
    {v : ActionScriptObject}
    → IsWire v
    → ((marker v == Marker.end) ≡ false) × ((marker v == Marker.uninit) ≡ false)
unfolding marker
wire_marker (wire_double n h) = (refl, refl)
wire_marker (wire_boolean n h) = (refl, refl)
wire_marker (wire_string s h) = (refl, refl)
wire_marker (wire_object d w) = (refl, refl)
wire_marker (wire_array d h w) = (refl, refl)
wire_marker wire_null = (refl, refl)

encode_object_pos : (v : ActionScriptObject) → 0 < length (encode_object v)
unfolding encode_object
encode_object_pos (object m n s d) = omega sizes

extend_entries :
    (fuel : ℕ) (name : List ℕ) (value : ActionScriptObject) (acc rest : Dict)
    → length name < 256 ^ 2
    → has_key name acc ≡ false
    → IsWire value
    → Decodes (deserialize_object fuel) (encode_object value) value
    → Decodes
        (deserialize_entries fuel (append_dict acc (entry name value nil)))
        (encode_entries rest ++ terminator)
        (append_dict (append_dict acc (entry name value nil)) rest)
    → Decodes
        (deserialize_entries (suc fuel) acc)
        (encode_entries (entry name value rest) ++ terminator)
        (append_dict acc (entry name value rest))
unfolding encode_object append_dict
extend_entries fuel name value acc rest g new v first more =
    subst (Decodes (deserialize_entries (suc fuel) acc) _)
      (append_dict_assoc acc (entry name value nil) rest)
      (Decodes-eq (simp append_assoc) (
        entry_at fuel name value acc _ (encode_object value) _ g (wire_marker v).0 (wire_marker v).1
          first
          (subst
            (λ d.
              Decodes (deserialize_entries fuel d) (encode_entries rest ++ terminator)
                (append_dict (append_dict acc (entry name value nil)) rest))
            (sym (insert_entry-new name value acc new)) more)))

mutual
  unfolding encode_object append_dict deserialize_value

  object-Decodes :
      {v : ActionScriptObject} (fuel : ℕ)
      → IsWire v
      → length (encode_object v) ≤ fuel
      → Decodes (deserialize_object fuel) (encode_object v) v
  object-Decodes {v} zero w h = absurd (omega (arith, encode_object_pos v))
  object-Decodes (suc fuel) (wire_double n g) h =
      object_at fuel Marker.double _ _ (omega arith)
        (Decodes-eq (append-nil _) (Decodes-bind _ (pop-Decodes 8 n g) (pure-Decodes _)))
  object-Decodes (suc fuel) (wire_boolean n g) h =
      object_at fuel Marker.boolean _ _ (omega arith)
        (Decodes-eq (append-nil _) (Decodes-bind _ (pop-Decodes 1 n g) (pure-Decodes _)))
  object-Decodes (suc fuel) (wire_string s g) h =
      object_at fuel Marker.string _ _ (omega arith)
        (Decodes-eq (append-nil _) (Decodes-bind _ (pop_string-Decodes s g) (pure-Decodes _)))
  object-Decodes (suc fuel) (wire_object d w) h = object_at fuel Marker.object _ _ (omega arith) (
      Decodes-eq (append-nil _) (
        Decodes-bind _ (entries-Decodes fuel nil w (Disjoint-nil d) (omega sizes))
          (pure-Decodes _)))
  object-Decodes (suc fuel) (wire_array d g w) h =
      object_at fuel Marker.ecma_array _ _ (omega arith) (
        Decodes-bind _ (pop-Decodes 4 (count_entries d) g) (
          Decodes-eq (append-nil _) (
            Decodes-bind _ (entries-Decodes fuel nil w (Disjoint-nil d) (omega sizes))
              (pure-Decodes _))))
  object-Decodes (suc fuel) wire_null h =
      object_at fuel Marker.null_type [] _ (omega arith) (pure-Decodes _)

  entries-Decodes :
      {d : Dict} (fuel : ℕ) (acc : Dict)
      → IsWireDict d
      → Disjoint acc d
      → length (encode_entries d) + 3 ≤ fuel
      → Decodes (deserialize_entries fuel acc) (encode_entries d ++ terminator) (append_dict acc d)
  entries-Decodes zero acc w p h = absurd (omega arith)
  entries-Decodes (suc fuel) acc no_entries p h =
      subst (Decodes (deserialize_entries (suc fuel) acc) terminator) (sym (append_dict-nil acc))
        (end_at (suc fuel) acc (omega arith))
  entries-Decodes (suc fuel) acc (with_entry name value rest g n v w) p h =
      extend_entries fuel name value acc rest g p.0 v (object-Decodes fuel v (omega sizes)) (
        entries-Decodes fuel (append_dict acc (entry name value nil)) w
          (Disjoint-append name value acc rest p.1 n) (omega (sizes, encode_object_pos value)))

-- A sent object is read back, whatever follows it, given a unit of fuel for each of its bytes.
pub deserialize_object-Decodes :
    (v : ActionScriptObject) (fuel : ℕ)
    → IsWire v
    → length (encode_object v) ≤ fuel
    → Decodes (deserialize_object fuel) (encode_object v) v
deserialize_object-Decodes v fuel = object-Decodes fuel

pub read_object-Decodes :
    (v : ActionScriptObject) → IsWire v → Decodes read_object (encode_object v) v
unfolding read_object remain
read_object-Decodes v w = record {
  run = λ bs rest e.
      let room = sym (length-unread bs) ∙ ap length e in
      (deserialize_object-Decodes v (suc (remain bs)) w
          (omega (sizes, room, length-append_bytes (encode_object v) rest))).run
        bs rest e;
}
