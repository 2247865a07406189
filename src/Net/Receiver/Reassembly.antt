-- ===== src/Net/Receiver/Reassembly.antt =====
-- The callback of a session of util/net gets the protocols that were sent.
use live_streaming.Base.{
  ℕ, zero, suc, ◌+◌, ◌^◌, ◌<◌, ◌≤◌, ◌≡◌, refl, sym, ap, ◌∙◌, subst, Bool, true, false, ◌==◌, List,
  [], ◌∷◌, ◌++◌, length, none, some, arith, inl, inr, ◌⊎◌, All, append_assoc, append-nil,
  length-append, drop-length_append,
}
use live_streaming.Result.{Result, ok}
use live_streaming.Net.Stream.{OctetsStream, Popped, new_stream, start, commit, revert}
use live_streaming.Net.Stream.RoundTrip.{halfway}
use live_streaming.Net.Receiver.{
  concat, generate_next, generate_from, generate, Readings, Receiver, exchanger_read,
  exchanger_reads,
}
use live_streaming.Net.Receiver.Splitting.{encodes, Partial, encodes-Split}

-- What Protocol::Deserialize does of a protocol that Serialize wrote as `encode p`: it reads it off
-- whatever comes after it, and throws, with the octets as they were, while some of it has not come.
pub record Codec (Protocol : Type 0) : Type 1 where
  pub encode : Protocol → List ℕ
  pub deserialize : OctetsStream → Popped Protocol
  pub Fits : Protocol → Type 0
  pub some_bytes : (p : Protocol) → Fits p → 0 < length (encode p)
  pub reads :
      (p : Protocol) (rest : List ℕ)
      → Fits p
      → length (encode p ++ rest) < 2 ^ 32
      → deserialize (new_stream (encode p ++ rest)) ≡ (some p, halfway 0 (encode p) rest)
  pub throws :
      (p : Protocol) (xs ys : List ℕ)
      → Fits p
      → encode p ≡ xs ++ ys
      → 0 < length ys
      → (os : OctetsStream) × (deserialize (new_stream xs) ≡ (none, os)) × (os.octets ≡ xs)
  pub throws_at_end :
      (os : OctetsStream) × (deserialize (new_stream []) ≡ (none, os)) × (os.octets ≡ [])

-- Before EAGAIN, the session read some bytes.
abbrev pub IsReady : Readings → Type 0
IsReady r = (r.again ≡ true) × (0 < length (concat r.reads))

abbrev pub all_read : List Readings → List ℕ
all_read [] = []
all_read (r ∷ rs) = concat r.reads ++ all_read rs

All-append : {A : Type 0} (P : A → Type 0) (xs ys : List A) → All P (xs ++ ys) → All P xs × All P ys
All-append P [] ys f = (tt, f)
All-append P (x ∷ xs) ys f = let (now, later) = All-append P xs ys f.1 in ((f.0, now), later)

module _ {Protocol : Type 0} (c : Codec Protocol) (callback : Protocol → Bool)
    (returns : (p : Protocol) → callback p ≡ true) where
  Stops : List ℕ → Type 0
  Stops q = (os : OctetsStream) × (c.deserialize (new_stream q) ≡ (none, os)) × (os.octets ≡ q)

  length-encodes : (ps : List Protocol) → All c.Fits ps → length ps ≤ length (encodes c.encode ps)
  length-encodes [] f = omega arith
  length-encodes (p ∷ ps) f = omega (
    arith,
    c.some_bytes p f.0,
    length-encodes ps f.1,
    length-append (c.encode p) (encodes c.encode ps),
  )

  Partial-Stops :
      (q rest : List ℕ) (ps : List Protocol) → All c.Fits ps → Partial c.encode q ps rest → Stops q
  unfolding Stops
  Partial-Stops q rest ps f part = elim part.part [
    | inl (e, g) ↦ subst Stops (sym e) c.throws_at_end
    | inr (p, more, ys, e, g, l) ↦ c.throws p q ys (subst (All c.Fits) e f).0 g l
  ]

  generate_from-encodes :
      (fuel : ℕ) (ps : List Protocol) (q : List ℕ)
      → Stops q
      → All c.Fits ps
      → length (encodes c.encode ps ++ q) < 2 ^ 32
      → length ps < fuel
      → generate_from c.deserialize callback fuel (new_stream (encodes c.encode ps ++ q))
        ≡ ok (ps, q)
  unfolding generate_from generate_next start commit revert Stops
  generate_from-encodes zero ps q s f l m = absurd (omega (arith, m))
  generate_from-encodes (suc fuel) [] q (os, e, g) f l m =
      ap (generate_next callback (generate_from c.deserialize callback fuel)) e
      ∙ ap (λ (ys : List ℕ). ok ([], ys)) g
  generate_from-encodes (suc fuel) (p ∷ ps) q s f l m =
      let rest = encodes c.encode ps ++ q in
      let a = append_assoc (c.encode p) (encodes c.encode ps) q in
      let n = length-append (c.encode p) rest in
      let i =
        generate_from-encodes fuel ps q s f.1 (omega (arith, l, n, ap length a))
          (omega (arith, m)) in
      let r = c.reads p rest f.0 (omega (arith, l, ap length a)) in
      let next = generate_from c.deserialize callback fuel in
      ap (λ xs. generate_from c.deserialize callback (suc fuel) (new_stream xs)) a
      ∙ ap (generate_next callback next) r
      ∙ rw (returns p, generate_next) (rw (drop-length_append (c.encode p) rest) (rw i refl))

  first :
      (ps : List Protocol)
      → All c.Fits ps
      → (◌≡◌ {A = List ℕ} [] []) × (ps ≡ [])
        ⊎ ((p : Protocol) × (more : List Protocol) × (ys : List ℕ) × (ps ≡ p ∷ more)
            × (c.encode p ≡ [] ++ ys)
            × (0 < length ys))
  first [] f = inl (refl, refl)
  first (p ∷ ps) f = inr (p, ps, c.encode p, refl, refl, c.some_bytes p f.0)

  -- Some of the protocols have come.
  record Received (ps : List Protocol) (later : List ℕ) (got : List Protocol)
      (r : Result (Receiver Protocol)) : Type 0 where
    come : List Protocol
    to_come : List Protocol
    q : List ℕ
    all : ps ≡ come ++ to_come
    runs : r ≡ ok (record { read_data = q; received = got ++ come; closed = false })
    left : Partial c.encode q to_come later

  no_more :
      (q : List ℕ) (ps : List Protocol) (later : List ℕ)
      → Partial c.encode q ps later
      → later ≡ []
      → ps ≡ []
  no_more q ps later k none_left = elim k.part [
    | inl (e, g) ↦ g
    | inr (p, more, ys, e, g, m) ↦ absurd (
        omega (
          arith,
          m,
          ap length k.whole,
          ap length none_left,
          length-append q later,
          ap length (ap (encodes c.encode) e),
          length-append (c.encode p) (encodes c.encode more),
          ap length g,
          length-append q ys,
        ))
  ]

  -- Bytes that are kept are fewer than those of the next protocol.
  not_whole :
      (q : List ℕ) (ps : List Protocol) (later : List ℕ)
      → Partial c.encode q ps later
      → (p : Protocol) (more : List Protocol) → ps ≡ p ∷ more
      → length q < length (c.encode p)
  not_whole q ps later k p more same = elim k.part [
    | inl (e, g) ↦ let z : [] ≡ p ∷ more = sym g ∙ same in ground arith
    | inr (p', more', ys, e, g, m) ↦
        let z : p' ∷ more' ≡ p ∷ more = sym e ∙ same in
        let w : p' ≡ p = cc in
        let f : c.encode p ≡ q ++ ys = ap c.encode (sym w) ∙ g in
        omega (arith, m, ap length f, length-append q ys)
  ]

  receive_next :
      (r : Readings) (ps : List Protocol) (d q : List ℕ) (got : List Protocol)
      → d ++ concat r.reads ≡ encodes c.encode ps ++ q
      → Stops q
      → All c.Fits ps
      → IsReady r
      → length (encodes c.encode ps ++ q) < 2 ^ 32
      → exchanger_read c.deserialize callback r
          (record { read_data = d; received = got; closed = false })
        ≡ ok (record { read_data = q; received = got ++ ps; closed = false })
  unfolding exchanger_read generate
  receive_next r ps d q got e s f (again, some_read) l =
      let n = length (encodes c.encode ps ++ q) in
      let fuel : length ps < n + 1 =
        omega (arith, length-encodes ps f, length-append (encodes c.encode ps) q) in
      let test : (length (concat r.reads) == 0) ≡ false = ground arith in
      rw (again, test, e) (rw (generate_from-encodes (n + 1) ps q s f l fuel) refl)

  receive_rest :
      (rs : List Readings) (ps : List Protocol) (d later : List ℕ) (got : List Protocol)
      → Partial c.encode d ps (all_read rs ++ later)
      → All c.Fits ps
      → All IsReady rs
      → length (encodes c.encode ps) < 2 ^ 32
      → Received ps later got (
          exchanger_reads c.deserialize callback rs
            (record { read_data = d; received = got; closed = false }))
  unfolding exchanger_reads
  receive_rest [] ps d later got k f ready l = record {
    come = [];
    to_come = ps;
    q = d;
    all = refl;
    runs = rw (append-nil got) refl;
    left = k;
  }
  receive_rest (r ∷ rs) ps d later got k f ready l =
      let read = concat r.reads in
      let more = all_read rs ++ later in
      let whole : (d ++ read) ++ more ≡ encodes c.encode ps =
        append_assoc d read more
        ∙ ap (λ zs. d ++ zs) (sym (append_assoc read (all_read rs) later))
        ∙ k.whole in
      let s = encodes-Split c.encode ps (d ++ read) more whole in
      let (now, then_) = All-append c.Fits s.come s.to_come (subst (All c.Fits) s.all f) in
      let n = length-append (encodes c.encode s.come ++ s.q) more in
      let m : length (encodes c.encode s.come ++ s.q) + length more ≡ length (encodes c.encode ps) =
        sym n ∙ ap length (ap (λ zs. zs ++ more) (sym s.bytes) ∙ whole) in
      let one =
        receive_next r s.come d s.q got s.bytes (Partial-Stops s.q more s.to_come then_ s.left) now
          ready.0 (omega (arith, l, m)) in
      let rest = receive_rest rs s.to_come s.q later (got ++ s.come) s.left then_ ready.1 (
        omega (
          arith,
          l,
          m,
          ap length s.left.whole,
          length-append s.q more,
          length-append (encodes c.encode s.come) s.q,
        )) in
      record {
        come = s.come ++ rest.come;
        to_come = rest.to_come;
        q = rest.q;
        all =
            s.all
            ∙ ap (λ qs. s.come ++ qs) rest.all
            ∙ sym (append_assoc s.come rest.come rest.to_come);
        runs = rw one (rest.runs ∙ rw (append_assoc got s.come rest.come) refl);
        left = rest.left;
      }

  -- However the bytes of the protocols that were sent arrive, in pieces of any size over any number of
  -- reads: the callback of the session gets the protocols that have come whole, in their order, and the
  -- session keeps the bytes that have come of the next one, which are fewer than all of its bytes;
  -- when no byte is left to come, it has got them all. All bytes are fewer than 2^32, every read finds
  -- some, and the callback does not throw.
  pub exchanger_reads-encodes :
      (rs : List Readings) (ps : List Protocol) (later : List ℕ)
      → all_read rs ++ later ≡ encodes c.encode ps
      → All c.Fits ps
      → All IsReady rs
      → length (encodes c.encode ps) < 2 ^ 32
      → (come to_come : List Protocol) × (q : List ℕ) × (ps ≡ come ++ to_come)
        × (exchanger_reads c.deserialize callback rs
              (record { read_data = []; received = []; closed = false })
            ≡ ok (record { read_data = q; received = come; closed = false }))
        × (q ++ later ≡ encodes c.encode to_come)
        × ((p : Protocol) (more : List Protocol)
            → to_come ≡ p ∷ more
            → length q < length (c.encode p))
        × (later ≡ [] → to_come ≡ [])
  exchanger_reads-encodes rs ps later e f ready l =
      let r = receive_rest rs ps [] later [] (record { whole = e; part = first ps f }) f ready l in
      (
        r.come,
        r.to_come,
        r.q,
        r.all,
        r.runs,
        r.left.whole,
        not_whole r.q r.to_come later r.left,
        no_more r.q r.to_come later r.left,
      )
