-- ===== src/Net/Receiver/Splitting.antt =====
-- A part of what was sent is some protocols of util/net, and a part of the next one.
use live_streaming.Base.{
  ℕ, ◌<◌, ◌≡◌, refl, sym, ap, ◌∙◌, List, [], ◌∷◌, ◌++◌, length, arith, inl, inr, ◌⊎◌, append_assoc,
}

pub append_split :
    (xs rest es more : List ℕ)
    → xs ++ rest ≡ es ++ more
    → ((ys : List ℕ) × (es ≡ xs ++ ys) × (0 < length ys))
      ⊎ ((ys : List ℕ) × (xs ≡ es ++ ys) × (ys ++ rest ≡ more))
append_split xs rest [] more eq = inr (xs, refl, eq)
append_split [] rest (e ∷ es) more eq = inl (e ∷ es, refl, omega arith)
append_split (x ∷ xs) rest (e ∷ es) more eq =
    let same : x ≡ e = cc in
    let tail : xs ++ rest ≡ es ++ more = cc in
    elim (append_split xs rest es more tail) [
      | inl (ys, f, l) ↦ inl (ys, rw (same, f) refl, l)
      | inr (ys, f, g) ↦ inr (ys, rw (same, f) refl, g)
    ]

module _ {Protocol : Type 0} (encode : Protocol → List ℕ) where
  abbrev pub encodes : List Protocol → List ℕ
  encodes [] = []
  encodes (p ∷ ps) = encode p ++ encodes ps

  -- The bytes `q` are the beginning of a protocol that has not come whole, or there are none.
  pub record Partial (q : List ℕ) (ps : List Protocol) (rest : List ℕ) : Type 0 where
    pub whole : q ++ rest ≡ encodes ps
    pub part :
        (q ≡ []) × (ps ≡ [])
        ⊎ ((p : Protocol) × (more : List Protocol) × (ys : List ℕ) × (ps ≡ p ∷ more)
            × (encode p ≡ q ++ ys)
            × (0 < length ys))

  pub record Split (xs rest : List ℕ) (ps : List Protocol) : Type 0 where
    pub come : List Protocol
    pub to_come : List Protocol
    pub q : List ℕ
    pub all : ps ≡ come ++ to_come
    pub bytes : xs ≡ encodes come ++ q
    pub left : Partial q to_come rest

  pub encodes-Split :
      (ps : List Protocol) (xs rest : List ℕ) → xs ++ rest ≡ encodes ps → Split xs rest ps
  encodes-Split [] [] rest e = record {
    come = [];
    to_come = [];
    q = [];
    all = refl;
    bytes = refl;
    left = record { whole = e; part = inl (refl, refl) };
  }
  encodes-Split [] (x ∷ xs) rest e = cc
  encodes-Split (p ∷ ps) xs rest e = elim (append_split xs rest (encode p) (encodes ps) e) [
    | inl (ys, f, l) ↦ record {
      come = [];
      to_come = p ∷ ps;
      q = xs;
      all = refl;
      bytes = refl;
      left = record { whole = e; part = inr (p, ps, ys, refl, f, l) };
    }
    | inr (ys, f, g) ↦
        let s = encodes-Split ps ys rest g in
        record {
          come = p ∷ s.come;
          to_come = s.to_come;
          q = s.q;
          all = ap (◌∷◌ p) s.all;
          bytes =
              f
              ∙ ap (λ zs. encode p ++ zs) s.bytes
              ∙ sym (append_assoc (encode p) (encodes s.come) s.q);
          left = s.left;
        }
  ]
