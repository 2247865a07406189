-- ===== src/Command.antt =====
-- server/command_message.h and server/command_message.cc: ActionScript objects (AMF0) and command
-- messages. A double is its bit pattern, a string its bytes.
pub mod Marker
pub mod Total
pub mod Wire
pub mod RoundTrip
pub mod Message
use live_streaming.Base.{
  ℕ, zero, suc, ◌+◌, Bool, true, false, List, [], ◌∷◌, ◌==◌, ◌||◌, if◌then◌else◌, length, bytes_eq,
}
use Marker
use live_streaming.Result.{ok, throws, aborts, exhausted}
use live_streaming.Stream.{
  ByteStream, Stream, ◌>>=◌, ◌>>◌, pure, pop, pop_raw, push_bytes, push_raw, remain, discard,
}

-- An object is its marker, the union of bool_value and double_value, string_value and dict_value.
-- A dictionary is listed in the order in which the program iterates over it.
mutual
  pub data ActionScriptObject : Type 0 where
    object : ℕ → ℕ → List ℕ → Dict → ActionScriptObject

  pub data Dict : Type 0 where
    nil : Dict
    entry : List ℕ → ActionScriptObject → Dict → Dict

unfoldable pub marker : ActionScriptObject → ℕ
marker (object m n s d) = m

-- A new ActionScriptObject with this marker.
abbrev pub plain : ℕ → ActionScriptObject
plain m = object m 0 [] nil

-- dict_value.size()
unfoldable pub count_entries : Dict → ℕ
count_entries nil = 0
count_entries (entry name value rest) = suc (count_entries rest)

-- dict_value[name] = value. A new key comes last in the iteration.
unfoldable pub insert_entry : List ℕ → ActionScriptObject → Dict → Dict
insert_entry name value nil = entry name value nil
insert_entry name value (entry k w rest) =
    if bytes_eq k name then entry k value rest else entry k w (insert_entry name value rest)

unfoldable mutual
  pub serialize_object : ActionScriptObject → Stream (Unit {0})
  serialize_object (object m n s d) =
      let entries = serialize_entries d in
      if m == Marker.double
      then (do push_bytes 1 m; push_bytes 8 n)
      else if m == Marker.boolean
      then (do push_bytes 1 m; push_bytes 1 n)
      else if m == Marker.string
      then (do push_bytes 1 m; push_bytes 2 (length s); push_raw s)
      else if m == Marker.ecma_array || m == Marker.object
      then (do
        push_bytes 1 m
        if m == Marker.ecma_array then push_bytes 4 (count_entries d) else pure tt
        entries
        push_bytes 2 0
        push_bytes 1 Marker.end)
      else if m == Marker.null_type
      then push_bytes 1 m
      else if m == Marker.uninit
      then pure tt
      else λ bs. aborts

  pub serialize_entries : Dict → Stream (Unit {0})
  serialize_entries nil = pure tt
  serialize_entries (entry name value rest) =
      let first = serialize_object value in
      let more = serialize_entries rest in do push_bytes 2 (length name); push_raw name; first; more

-- PopString(Pop<uint16_t>())
unfoldable pub pop_string : Stream (List ℕ)
pop_string = do size ← pop 2; pop_raw size

-- Deserialize into a new object, what follows the marker; `entries` reads a dictionary.
unfoldable pub deserialize_value : ℕ → Stream Dict → Stream ActionScriptObject
deserialize_value m entries =
    if m == Marker.double
    then (do n ← pop 8; pure (object m n [] nil))
    else if m == Marker.boolean
    then (do n ← pop 1; pure (object m n [] nil))
    else if m == Marker.string
    then (do s ← pop_string; pure (object m 0 s nil))
    else if m == Marker.ecma_array
    then (do reserved ← pop 4; d ← entries; pure (object m 0 [] d))
    else if m == Marker.object
    then (do d ← entries; pure (object m 0 [] d))
    else if m == Marker.null_type || m == Marker.end
    then pure (plain m)
    else λ bs. (do discard (remain bs); pure (plain m)) bs

-- Each call costs a unit of fuel.
unfoldable mutual
  pub deserialize_object : ℕ → Stream ActionScriptObject
  deserialize_object zero = λ bs. exhausted
  deserialize_object (suc fuel) =
      let read = (do m ← pop 1; deserialize_value m (deserialize_entries fuel nil)) in
      λ bs. if remain bs == 0 then pure (plain Marker.uninit) bs else read bs

  pub deserialize_entries : ℕ → Dict → Stream Dict
  deserialize_entries zero d = λ bs. exhausted
  deserialize_entries (suc fuel) d = do
    name ← pop_string
    value ← deserialize_object fuel
    let more = deserialize_entries fuel (insert_entry name value d)
    if marker value == Marker.end
        then pure d
        else if marker value == Marker.uninit
        then (λ bs. throws)
        else more

-- operator>>(ActionScriptObject&): a byte for each unit of fuel, and one more, is enough.
unfoldable pub read_object : Stream ActionScriptObject
read_object bs = deserialize_object (suc (remain bs)) bs

pub record CommandMessage : Type 0 where
  pub name : List ℕ
  pub id : ℕ
  pub obj1 : ActionScriptObject
  pub obj2 : ActionScriptObject
  pub obj3 : ActionScriptObject
  pub obj4 : ActionScriptObject
  pub obj5 : ActionScriptObject
  pub obj6 : ActionScriptObject
  pub obj7 : ActionScriptObject
  pub obj8 : ActionScriptObject

-- CommandMessage(n, i)
unfoldable pub new_command : List ℕ → ℕ → CommandMessage
new_command n i = record {
  name = n;
  id = i;
  obj1 = plain Marker.uninit;
  obj2 = plain Marker.uninit;
  obj3 = plain Marker.uninit;
  obj4 = plain Marker.uninit;
  obj5 = plain Marker.uninit;
  obj6 = plain Marker.uninit;
  obj7 = plain Marker.uninit;
  obj8 = plain Marker.uninit;
}

unfoldable pub serialize_command : CommandMessage → Stream (Unit {0})
serialize_command c = do
  push_bytes 1 Marker.string
  push_bytes 2 (length c.name)
  push_raw c.name
  push_bytes 1 Marker.double
  push_bytes 8 c.id
  serialize_object c.obj1
  serialize_object c.obj2
  serialize_object c.obj3
  serialize_object c.obj4
  serialize_object c.obj5
  serialize_object c.obj6
  serialize_object c.obj7
  serialize_object c.obj8

unfoldable pub deserialize_command : Stream CommandMessage
deserialize_command = do
  name_marker ← pop 1
  name ← pop_string
  id_marker ← pop 1
  id ← pop 8
  obj1 ← read_object
  obj2 ← read_object
  obj3 ← read_object
  obj4 ← read_object
  obj5 ← read_object
  obj6 ← read_object
  obj7 ← read_object
  obj8 ← read_object
  pure (record {
    name = name;
    id = id;
    obj1 = obj1;
    obj2 = obj2;
    obj3 = obj3;
    obj4 = obj4;
    obj5 = obj5;
    obj6 = obj6;
    obj7 = obj7;
    obj8 = obj8;
  })
