-- ===== src/Net/Sender/Order.antt =====
-- What a session of util/net sends is what it was given, in that order.
use live_streaming.Base.{
  ℕ, zero, suc, ◌+◌, ◌≤◌, ◌≡◌, refl, sym, ap, ◌∙◌, subst, Bool, true, false, ◌==◌, List, [], ◌∷◌,
  ◌++◌, length, take, drop, arith, inl, inr, ◌⊎◌, append_assoc, append-nil, length-append,
  drop-drop, Bool-cases, if◌then◌else◌, drop-length_append, ==_iff,
}
use live_streaming.Net.Receiver.{concat}
use live_streaming.Net.Sender.{
  close_ready, Sender, entered, looping, append_send_data, swap_lists, write_takes, write_ends,
  put_back, write_fails,
}
use live_streaming.Net.Sender.Steps.{
  unsent, Reach, Quiet, IsInOrder, flags_change-IsInOrder, sets-IsInOrder, leaves-IsInOrder,
  closes-IsInOrder, tries-IsInOrder, close-close_ready, begins-IsInOrder, start, sets, closes,
  appends, tries, begins, swaps, writes, ends, leaves, fails,
}

swaps-IsInOrder :
    {xs : List ℕ} {b : Bool} {s : Sender}
    → s.phase ≡ entered
    → IsInOrder xs b s
    → IsInOrder xs b (swap_lists s)
unfolding swap_lists
swaps-IsInOrder {xs = xs} {b = b} {s = s} p k =
    let (empty, fine) = subst (λ p. Quiet p s.tmp_send_data_list b) p k.quiet in
    let same : unsent (swap_lists s) ≡ unsent s = rw (empty, append-nil s.send_data_list) refl in
    record {
      quiet = fine;
      prefix = k.prefix;
      whole = λ l. rw same (k.whole l);
      within = λ l. rw (append-nil s.send_data_list) (
          subst (λ tmp. s.cursor_of_first_send_data ≤ length (concat (tmp ++ s.send_data_list)))
            empty (k.within l));
      shut = k.shut;
      once = k.once;
    }

list_cases :
    (xss : List (List ℕ)) → (xss ≡ []) ⊎ ((d : List ℕ) × (ds : List (List ℕ)) × (xss ≡ d ∷ ds))
list_cases [] = inl refl
list_cases (d ∷ ds) = inr (d, ds, refl)

ends-IsInOrder :
    {xs : List ℕ} {b : Bool} {s : Sender}
    → s.phase ≡ looping
    → IsInOrder xs b s
    → IsInOrder xs b (write_ends s)
unfolding write_ends put_back
ends-IsInOrder {xs = xs} {b = b} {s = s} p k =
    let fine = subst (λ p. Quiet p s.tmp_send_data_list b) p k.quiet in
    elim (list_cases s.tmp_send_data_list) [
      | inl e ↦
          subst (λ tmp. IsInOrder xs b (put_back tmp s)) (sym e)
            (flags_change-IsInOrder k refl refl refl refl (e, fine, λ z. omega (arith, z)) k.shut
              k.once)
      | inr (d, ds, e) ↦
          subst (λ tmp. IsInOrder xs b (put_back tmp s)) (sym e)
            (record {
              quiet = (refl, fine, λ z. omega (arith, z));
              prefix = k.prefix;
              whole = λ l.
                  subst
                    (λ tmp.
                      s.sent ++ drop s.cursor_of_first_send_data (concat (tmp ++ s.send_data_list))
                      ≡ xs)
                    e (k.whole l);
              within = λ l.
                  subst
                    (λ tmp. s.cursor_of_first_send_data ≤ length (concat (tmp ++ s.send_data_list)))
                    e (k.within l);
              shut = k.shut;
              once = k.once;
            })
    ]

fails-IsInOrder :
    {xs : List ℕ} {b : Bool} {s : Sender}
    → s.phase ≡ looping
    → IsInOrder xs b s
    → IsInOrder xs true (write_fails s)
unfolding write_fails
fails-IsInOrder {xs = xs} {b = b} {s = s} p k =
    let c = closes-IsInOrder k in
    record {
      quiet = refl;
      prefix = c.prefix;
      whole = λ l. ground arith;
      within = λ l. ground arith;
      shut = λ l. close-close_ready s;
      once = c.once;
    }

concat-append : (xss yss : List (List ℕ)) → concat (xss ++ yss) ≡ concat xss ++ concat yss
concat-append [] yss = refl
concat-append (xs ∷ xss) yss =
    ap (λ zs. xs ++ zs) (concat-append xss yss) ∙ sym (append_assoc xs (concat xss) (concat yss))

drop-append : (n : ℕ) (xs ys : List ℕ) → n ≤ length xs → drop n (xs ++ ys) ≡ drop n xs ++ ys
drop-append zero xs ys l = refl
drop-append (suc n) [] ys l = absurd (omega (arith, l))
drop-append (suc n) (x ∷ xs) ys l = drop-append n xs ys (omega (arith, l))

take-drop : (n : ℕ) (xs : List ℕ) → take n xs ++ drop n xs ≡ xs
take-drop zero xs = refl
take-drop (suc n) [] = refl
take-drop (suc n) (x ∷ xs) = ap (◌∷◌ x) (take-drop n xs)

appends-IsInOrder :
    {xs : List ℕ} {b : Bool} {s : Sender} (ys : List ℕ)
    → IsInOrder xs b s
    → IsInOrder (xs ++ ys) b (append_send_data ys s)
unfolding append_send_data
appends-IsInOrder {xs = xs} {b = b} {s = s} ys k =
    let old = s.tmp_send_data_list ++ s.send_data_list in
    let e : concat (s.tmp_send_data_list ++ (s.send_data_list ++ ys ∷ [])) ≡ concat old ++ ys =
      ap concat (sym (append_assoc s.tmp_send_data_list s.send_data_list (ys ∷ [])))
      ∙ concat-append old (ys ∷ [])
      ∙ ap (λ zs. concat old ++ zs) (append-nil ys) in
    record {
      quiet = k.quiet;
      prefix =
          let (rest, m) = k.prefix in
          (rest ++ ys, sym (append_assoc s.sent rest ys) ∙ ap (λ zs. zs ++ ys) m);
      whole = λ l.
          ap (λ zs. s.sent ++ drop s.cursor_of_first_send_data zs) e
          ∙ ap (λ zs. s.sent ++ zs)
              (drop-append s.cursor_of_first_send_data (concat old) ys (k.within l))
          ∙ sym (append_assoc s.sent (unsent s) ys)
          ∙ ap (λ zs. zs ++ ys) (k.whole l);
      within = λ l. omega (arith, k.within l, ap length e, length-append (concat old) ys);
      shut = k.shut;
      once = k.once;
    }

written :
    (c n : ℕ) (front rest : List ℕ)
    → c + n ≤ length front
    → drop c (front ++ rest) ≡ take n (drop c front) ++ drop (c + n) (front ++ rest)
written c n front rest l =
    drop-append c front rest (omega (arith, l))
    ∙ ap (λ zs. zs ++ rest) (sym (take-drop n (drop c front)))
    ∙ append_assoc (take n (drop c front)) (drop n (drop c front)) rest
    ∙ ap (λ zs. take n (drop c front) ++ zs)
        (ap (λ zs. zs ++ rest) (drop-drop n c front) ∙ sym (drop-append (c + n) front rest l))

writes-IsInOrder :
    {xs : List ℕ} {b : Bool} {s : Sender} (count : ℕ) (front : List ℕ) (rest : List (List ℕ))
    → s.phase ≡ looping
    → s.tmp_send_data_list ≡ front ∷ rest
    → s.cursor_of_first_send_data + count ≤ length front
    → IsInOrder xs b s
    → IsInOrder xs b (write_takes count front rest s)
unfolding write_takes
writes-IsInOrder {xs = xs} {b = b} {s = s} count front rest p e l k =
    let fine : b ≡ false = subst (λ p. Quiet p s.tmp_send_data_list b) p k.quiet in
    let c = s.cursor_of_first_send_data in
    let later = concat (rest ++ s.send_data_list) in
    let now = take count (drop c front) in
    let all : (s.sent ++ now) ++ drop (c + count) (front ++ later) ≡ xs =
      append_assoc s.sent now _
      ∙ ap (λ zs. s.sent ++ zs) (sym (written c count front later l))
      ∙ subst (λ tmp. s.sent ++ drop c (concat (tmp ++ s.send_data_list)) ≡ xs) e (k.whole fine) in
    elim (Bool-cases (c + count == length front)) [
      | inl t ↦
          let end : drop (c + count) (front ++ later) ≡ later =
            ap (λ n. drop n (front ++ later)) ((==_iff (c + count) (length front)).0 t)
            ∙ drop-length_append front later in
          let whole = subst (λ zs. (s.sent ++ now) ++ zs ≡ xs) end all in
          rw (t, write_takes)
            (record {
              quiet = subst (λ p. Quiet p rest b) (sym p) fine;
              prefix = (later, whole);
              whole = λ m. whole;
              within = λ m. omega arith;
              shut = k.shut;
              once = k.once;
            })
      | inr t ↦
          rw (t, write_takes)
            (record {
              quiet = subst (λ p. Quiet p s.tmp_send_data_list b) (sym p) fine;
              prefix = (drop (c + count) (front ++ later), all);
              whole = λ m. rw e all;
              within = λ m. rw e (omega (arith, l, length-append front later));
              shut = k.shut;
              once = k.once;
            })
    ]

Reach-IsInOrder : {xs : List ℕ} {b : Bool} {s : Sender} → Reach xs b s → IsInOrder xs b s
Reach-IsInOrder start = record {
  quiet = refl;
  prefix = ([], refl);
  whole = λ l. refl;
  within = λ l. omega arith;
  shut = λ l. ground arith;
  once = refl;
}
Reach-IsInOrder (sets f n r) = sets-IsInOrder f n (Reach-IsInOrder r)
Reach-IsInOrder (closes r) = closes-IsInOrder (Reach-IsInOrder r)
Reach-IsInOrder (appends ys l r) = appends-IsInOrder ys (Reach-IsInOrder r)
Reach-IsInOrder (tries takes r) = tries-IsInOrder takes (Reach-IsInOrder r)
Reach-IsInOrder (begins tasks n p r) = begins-IsInOrder tasks p (Reach-IsInOrder r)
Reach-IsInOrder (swaps p r) = swaps-IsInOrder p (Reach-IsInOrder r)
Reach-IsInOrder (writes count front rest p e m l r) =
    writes-IsInOrder count front rest p e l (Reach-IsInOrder r)
Reach-IsInOrder (ends p r) = ends-IsInOrder p (Reach-IsInOrder r)
Reach-IsInOrder (leaves f p r) = leaves-IsInOrder f p (Reach-IsInOrder r)
Reach-IsInOrder (fails p r) = fails-IsInOrder p (Reach-IsInOrder r)

-- However the callers, the event loop and the writing task take turns: what the socket has taken is
-- the beginning of what was appended, in order; until a write fails, the two lists hold the rest of
-- it, but for the bytes before the cursor; and the disconnect callback was called once if the session
-- is closed, and otherwise not at all.
pub Reach-in_order :
    (xs : List ℕ) (b : Bool) (s : Sender)
    → Reach xs b s
    → ((rest : List ℕ) × (s.sent ++ rest ≡ xs))
      × (b ≡ false → s.sent ++ unsent s ≡ xs)
      × (s.disconnects ≡ (if s.event_flag close_ready then 1 else 0))
Reach-in_order xs b s r = let k = Reach-IsInOrder r in (k.prefix, k.whole, k.once)
