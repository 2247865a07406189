-- ===== src/Command/Message.antt =====
-- Command messages as they travel (server/command_message.cc). An object that is not set writes
-- nothing, so a reader can tell only from the end of the bytes which of the eight are unset.
use live_streaming.Base.{
  ℕ, ◌-◌, ◌^◌, ◌<◌, ◌≡◌, refl, ap, sym, ◌∙◌, subst, List, [], ◌∷◌, ◌++◌, true, ◌==◌, if◌then◌else◌,
  length, arith, append-nil, append_assoc, All,
}
use live_streaming.Result.{ok}
use live_streaming.Stream.{ByteStream, Stream, ◌>>=◌, pure, be_bytes, remain}
use live_streaming.Stream.Codec.{
  Encodes, Decodes, push_bytes-Encodes, push_raw-Encodes, pop-Decodes, pure-Encodes, Encodes-then,
  Encodes-eq, length-unread, unread, unread-advance, advance,
}
use live_streaming.Command.Marker
use live_streaming.Command.{
  ActionScriptObject, plain, marker, serialize_object, deserialize_object, read_object,
  CommandMessage, serialize_command, deserialize_command,
}
use live_streaming.Command.Wire.{encode_object, IsWire}
use live_streaming.Command.RoundTrip.{
  serialize_object-Encodes, pop_string-Decodes, read_object-Decodes, wire_marker,
}

abbrev pub unset : ActionScriptObject
unset = plain Marker.uninit

unfoldable pub encode_sent : ActionScriptObject → List ℕ
encode_sent v = if marker v == Marker.uninit then [] else encode_object v

pub encode_all : List ActionScriptObject → List ℕ
encode_all [] = []
encode_all (v ∷ vs) = encode_sent v ++ encode_all vs

abbrev pub objects : CommandMessage → List ActionScriptObject
objects c = c.obj1 ∷ c.obj2 ∷ c.obj3 ∷ c.obj4 ∷ c.obj5 ∷ c.obj6 ∷ c.obj7 ∷ c.obj8 ∷ []

-- Objects that survive the wire, and behind them only objects that are not set.
pub data Packed : List ActionScriptObject → Type 0 where
  set_first :
      (v : ActionScriptObject) (vs : List ActionScriptObject)
      → IsWire v
      → Packed vs
      → Packed (v ∷ vs)
  all_unset : {vs : List ActionScriptObject} → All (λ w. w ≡ unset) vs → Packed vs

pub record IsWireCommand (c : CommandMessage) : Type 0 where
  pub name_lt : length c.name < 256 ^ 2
  pub id_lt : c.id < 256 ^ 8
  pub packed : Packed (objects c)

pub encode_command : CommandMessage → List ℕ
encode_command c =
    be_bytes 1 Marker.string
    ++ (be_bytes 2 (length c.name)
        ++ (c.name ++ (be_bytes 1 Marker.double ++ (be_bytes 8 c.id ++ encode_all (objects c)))))

encode_all-unset : (vs : List ActionScriptObject) → All (λ w. w ≡ unset) vs → encode_all vs ≡ []
unfolding encode_all encode_sent marker
encode_all-unset [] h = refl
encode_all-unset (v ∷ vs) h = rw h.0 (encode_all-unset vs h.1)

-- One object of the eight, and what it says of those behind it.
data Next (v : ActionScriptObject) (vs : List ActionScriptObject) : Type 0 where
  set_here : IsWire v → Next v vs
  unset_from_here : v ≡ unset → encode_all vs ≡ [] → Next v vs

-- Each object with those behind it.
abbrev Nexts : List ActionScriptObject → Type 0
Nexts [] = Unit {0}
Nexts (v ∷ vs) = Next v vs × Nexts vs

Nexts-unset : (vs : List ActionScriptObject) → All (λ w. w ≡ unset) vs → Nexts vs
Nexts-unset [] h = tt
Nexts-unset (v ∷ vs) h = (unset_from_here h.0 (encode_all-unset vs h.1), Nexts-unset vs h.1)

Packed-Nexts : {vs : List ActionScriptObject} → Packed vs → Nexts vs
Packed-Nexts (set_first v vs w p) = (set_here w, Packed-Nexts p)
Packed-Nexts (all_unset {vs} h) = Nexts-unset vs h

send_slot :
    (v : ActionScriptObject) (vs : List ActionScriptObject)
    → Next v vs
    → Encodes (serialize_object v) (encode_sent v)
unfolding encode_sent
send_slot v vs (set_here w) = rw ((wire_marker w).1) (serialize_object-Encodes w)
send_slot v vs (unset_from_here e _) = rw e (unfold serialize_object marker in pure-Encodes)

-- Where `xs` is all that is left, the reader returns `a` and leaves nothing.
pub record DecodesLast {ℓ} {A : Type ℓ} (r : Stream A) (xs : List ℕ) (a : A) : Type ℓ where
  pub run :
      (bs : ByteStream)
      → unread bs ≡ xs
      → (bs' : ByteStream) × (r bs ≡ ok (a, bs')) × (unread bs' ≡ [])

last_pure {ℓ} : {A : Type ℓ} (a : A) → DecodesLast (pure a) [] a
unfolding pure
last_pure a = record { run = λ bs e. (bs, refl, e) }

last_bind {ℓ κ} :
    {A : Type ℓ} {B : Type κ} {r : Stream A} (f : A → Stream B) {xs ys : List ℕ} {a : A} {b : B}
    → Decodes r xs a
    → DecodesLast (f a) ys b
    → DecodesLast (r >>= f) (xs ++ ys) b
unfolding ◌>>=◌
last_bind f {xs} {ys} d l = record {
  run = λ bs e.
      let (bs', p, q) = l.run (advance (length xs) bs) (unread-advance bs xs ys e) in
      (bs', rw (d.run bs ys e) p, q);
}

read_unset : (bs : ByteStream) → unread bs ≡ [] → read_object bs ≡ ok (unset, bs)
unfolding read_object deserialize_object pure remain
read_unset bs e =
    let z : (length bs.bytes - bs.head == 0) ≡ true =
      ground (arith, sym (length-unread bs) ∙ ap length e) in
    rw z refl

last_object {ℓ} :
    {B : Type ℓ} (v : ActionScriptObject) (vs : List ActionScriptObject)
    (f : ActionScriptObject → Stream B) {b : B}
    → Next v vs
    → DecodesLast (f v) (encode_all vs) b
    → DecodesLast (read_object >>= f) (encode_all (v ∷ vs)) b
unfolding encode_all encode_sent ◌>>=◌ marker
last_object v vs f (set_here w) l = rw ((wire_marker w).1) (last_bind f (read_object-Decodes v w) l)
last_object v vs f (unset_from_here e z) l =
    rw (e, z)
      record {
        run = λ bs empty.
            let (bs', p, q) = l.run bs (empty ∙ sym z) in
            (bs', rw (read_unset bs empty) (rw (← e) p), q);
      }

DecodesLast-eq {ℓ} :
    {A : Type ℓ} {r : Stream A} {xs ys : List ℕ} {a : A}
    → xs ≡ ys
    → DecodesLast r xs a
    → DecodesLast r ys a
DecodesLast-eq {r} {a} e h = subst (λ zs. DecodesLast r zs a) e h

-- Sending writes the bytes of the message, and nothing else.
pub serialize_command-Encodes :
    (c : CommandMessage) → IsWireCommand c → Encodes (serialize_command c) (encode_command c)
unfolding serialize_command encode_command encode_all
serialize_command-Encodes c w =
    let n = Packed-Nexts w.packed in
    Encodes-then (push_bytes-Encodes 1 _) (
      Encodes-then (push_bytes-Encodes 2 _) (
        Encodes-then (push_raw-Encodes c.name) (
          Encodes-then (push_bytes-Encodes 1 _) (
            Encodes-then (push_bytes-Encodes 8 _) (
              Encodes-then (send_slot _ _ n.0) (
                Encodes-then (send_slot _ _ n.1.0) (
                  Encodes-then (send_slot _ _ n.1.1.0) (
                    Encodes-then (send_slot _ _ n.1.1.1.0) (
                      Encodes-then (send_slot _ _ n.1.1.1.1.0) (
                        Encodes-then (send_slot _ _ n.1.1.1.1.1.0) (
                          Encodes-then (send_slot _ _ n.1.1.1.1.1.1.0) (
                            Encodes-eq (sym (append-nil _))
                              (send_slot _ _ n.1.1.1.1.1.1.1.0)))))))))))))

-- Reading takes the whole message and gives it back.
pub deserialize_command-DecodesLast :
    (c : CommandMessage) → IsWireCommand c → DecodesLast deserialize_command (encode_command c) c
unfolding deserialize_command encode_command
deserialize_command-DecodesLast c w =
    let n = Packed-Nexts w.packed in
    last_bind _ (pop-Decodes 1 Marker.string (omega arith)) (
      DecodesLast-eq
        (append_assoc (be_bytes 2 (length c.name)) c.name
          (be_bytes 1 Marker.double ++ (be_bytes 8 c.id ++ encode_all (objects c))))
        (last_bind _ (pop_string-Decodes c.name w.name_lt) (
          last_bind _ (pop-Decodes 1 Marker.double (omega arith)) (
            last_bind _ (pop-Decodes 8 c.id w.id_lt) (
              last_object _ _ _ n.0 (
                last_object _ _ _ n.1.0 (
                  last_object _ _ _ n.1.1.0 (
                    last_object _ _ _ n.1.1.1.0 (
                      last_object _ _ _ n.1.1.1.1.0 (
                        last_object _ _ _ n.1.1.1.1.1.0 (
                          last_object _ _ _ n.1.1.1.1.1.1.0 (
                            last_object _ [] _ n.1.1.1.1.1.1.1.0
                              (unfold encode_all in last_pure c)))))))))))))

-- A command message whose name is shorter than 2 ^ 16, and whose objects are wire objects followed
-- by unset ones, is written as some bytes; where these are all that is left, reading gives the
-- message back and leaves nothing.
pub serialize_command-RoundTrips :
    (c : CommandMessage)
    → IsWireCommand c
    → (xs : List ℕ) × Encodes (serialize_command c) xs × DecodesLast deserialize_command xs c
serialize_command-RoundTrips c w =
    (encode_command c, serialize_command-Encodes c w, deserialize_command-DecodesLast c w)
