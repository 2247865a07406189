-- ===== src/Net/Sender/Steps.antt =====
-- The steps of a session of util/net, and those that change its flags alone.
use live_streaming.Base.{
  ℕ, ◌+◌, ◌<◌, ◌≤◌, ◌≡◌, ◌≢◌, refl, sym, ap, ◌∙◌, subst, Bool, true, false, ◌==◌, List, [], ◌∷◌,
  ◌++◌, length, drop, none, some, arith, inl, inr, Bool-cases, Option-cases, ◌&&◌, if◌then◌else◌,
}
use live_streaming.Net.Receiver.{concat}
use live_streaming.Net.Sender.{
  Flag, bit, agree, close_ready, write_access, write_ready, write_pending, Flags, set_flags,
  clear_flags, Sender, new_sender, Phase, idle, entered, looping, leaving, set_event_flag, close,
  try_add_write_task, append_send_data, write_begins, swap_lists, write_takes, write_ends,
  write_leaves, write_fails, test_and_modify, matches,
}

-- The bytes that a session has not sent yet.
abbrev pub unsent : Sender → List ℕ
unsent s = drop s.cursor_of_first_send_data (concat (s.tmp_send_data_list ++ s.send_data_list))

-- What callers, the event loop and the writing task do, in any order, with the bytes that were
-- appended, and whether a write has failed. SetEventFlag gets other flags than CLOSE_READY. Appended data are not empty, and write takes a positive
-- number of bytes, no more than it was given.
pub data Reach : List ℕ → Bool → Sender → Type 0 where
  start : Reach [] false new_sender
  sets :
      {xs : List ℕ} {b : Bool} {s : Sender} (f : Flag)
      → bit f ≢ 32
      → Reach xs b s
      → Reach xs b (set_event_flag f s)
  closes : {xs : List ℕ} {b : Bool} {s : Sender} → Reach xs b s → Reach xs b (close s)
  appends :
      {xs : List ℕ} {b : Bool} {s : Sender} (ys : List ℕ)
      → 0 < length ys
      → Reach xs b s
      → Reach (xs ++ ys) b (append_send_data ys s)
  tries :
      {xs : List ℕ} {b : Bool} {s : Sender} (takes : Bool)
      → Reach xs b s
      → Reach xs b (try_add_write_task takes s)
  begins :
      {xs : List ℕ} {b : Bool} {s : Sender} (tasks : ℕ)
      → s.tasks ≡ tasks + 1
      → s.phase ≡ idle
      → Reach xs b s
      → Reach xs b (write_begins tasks s)
  swaps :
      {xs : List ℕ} {b : Bool} {s : Sender}
      → s.phase ≡ entered
      → Reach xs b s
      → Reach xs b (swap_lists s)
  writes :
      {xs : List ℕ} {b : Bool} {s : Sender} (count : ℕ) (front : List ℕ) (rest : List (List ℕ))
      → s.phase ≡ looping
      → s.tmp_send_data_list ≡ front ∷ rest
      → 0 < count
      → s.cursor_of_first_send_data + count ≤ length front
      → Reach xs b s
      → Reach xs b (write_takes count front rest s)
  ends :
      {xs : List ℕ} {b : Bool} {s : Sender}
      → s.phase ≡ looping
      → Reach xs b s
      → Reach xs b (write_ends s)
  leaves :
      {xs : List ℕ} {b : Bool} {s : Sender} (f : Flag)
      → s.phase ≡ leaving f
      → Reach xs b s
      → Reach xs b (write_leaves f s)
  fails :
      {xs : List ℕ} {b : Bool} {s : Sender}
      → s.phase ≡ looping
      → Reach xs b s
      → Reach xs true (write_fails s)

-- Lists but the one that is written are empty outside the loop; after a failure nothing is written.
abbrev pub Quiet : Phase → List (List ℕ) → Bool → Type 0
Quiet idle tmp b = tmp ≡ []
Quiet entered tmp b = (tmp ≡ []) × (b ≡ false)
Quiet looping tmp b = b ≡ false
Quiet (leaving f) tmp b = (tmp ≡ []) × (b ≡ false) × (bit f ≢ 32)

pub record IsInOrder (xs : List ℕ) (b : Bool) (s : Sender) : Type 0 where
  pub quiet : Quiet s.phase s.tmp_send_data_list b
  pub prefix : (rest : List ℕ) × (s.sent ++ rest ≡ xs)
  pub whole : b ≡ false → s.sent ++ unsent s ≡ xs
  pub within :
      b ≡ false
      → s.cursor_of_first_send_data ≤ length (concat (s.tmp_send_data_list ++ s.send_data_list))
  pub shut : b ≡ true → s.event_flag close_ready ≡ true
  pub once : s.disconnects ≡ (if s.event_flag close_ready then 1 else 0)

-- A step that changes flags, tasks and the phase alone.
pub flags_change-IsInOrder :
    {xs : List ℕ} {b : Bool} {s t : Sender}
    → IsInOrder xs b s
    → t.send_data_list ≡ s.send_data_list
    → t.tmp_send_data_list ≡ s.tmp_send_data_list
    → t.cursor_of_first_send_data ≡ s.cursor_of_first_send_data
    → t.sent ≡ s.sent
    → Quiet t.phase t.tmp_send_data_list b
    → (b ≡ true → t.event_flag close_ready ≡ true)
    → t.disconnects ≡ (if t.event_flag close_ready then 1 else 0)
    → IsInOrder xs b t
flags_change-IsInOrder {xs} {b} {s} {t} k e f g h quiet shut once =
    let same : unsent t ≡ unsent s = rw (e, f, g) refl in
    record {
      quiet = quiet;
      prefix = let (rest, m) = k.prefix in (rest, rw h m);
      whole = λ l. rw (h, same) (k.whole l);
      within = λ l. rw (e, f, g) (k.within l);
      shut = shut;
      once = once;
    }

set_event_flag-close_ready :
    (f : Flag) (s : Sender)
    → bit f ≢ 32
    → (set_event_flag f s).event_flag close_ready ≡ s.event_flag close_ready
unfolding set_event_flag set_flags
set_event_flag-close_ready f s n = let other : (bit f == 32) ≡ false = ground arith in rw other refl

pub sets-IsInOrder :
    {xs : List ℕ} {b : Bool} {s : Sender} (f : Flag)
    → bit f ≢ 32
    → IsInOrder xs b s
    → IsInOrder xs b (set_event_flag f s)
unfolding set_event_flag
sets-IsInOrder {s = s} f n k =
    let e = set_event_flag-close_ready f s n in
    flags_change-IsInOrder k refl refl refl refl k.quiet (λ l. e ∙ k.shut l) (rw e k.once)

pub leaves-IsInOrder :
    {xs : List ℕ} {b : Bool} {s : Sender} (f : Flag)
    → s.phase ≡ leaving f
    → IsInOrder xs b s
    → IsInOrder xs b (write_leaves f s)
unfolding write_leaves set_event_flag
leaves-IsInOrder {b = b} {s = s} f p k =
    let (empty, fine, n) = subst (λ p. Quiet p s.tmp_send_data_list b) p k.quiet in
    let e = set_event_flag-close_ready f s n in
    flags_change-IsInOrder k refl refl refl refl empty (λ l. e ∙ k.shut l) (rw e k.once)

pub closes-IsInOrder :
    {xs : List ℕ} {b : Bool} {s : Sender} → IsInOrder xs b s → IsInOrder xs b (close s)
unfolding close test_and_modify matches set_flags clear_flags
closes-IsInOrder {s = s} k = elim (Bool-cases (s.event_flag close_ready)) [
  | inl e ↦ let same : close s ≡ s = rw (e, close) refl in subst (IsInOrder _ _) (sym same) k
  | inr e ↦
      let same : close s ≡ record s {
        event_flag = clear_flags [] (set_flags (close_ready ∷ []) s.event_flag);
        disconnects = s.disconnects + 1;
      } =
        rw (e, close) refl in
      subst (IsInOrder _ _) (sym same) (
        flags_change-IsInOrder k refl refl refl refl k.quiet (λ l. refl)
          (let z = k.once in ground arith))
]

some_if :
    {A : Type 0} (b : Bool) (x y : A) → (if b then some x else none) ≡ some y → (b ≡ true) × (y ≡ x)
some_if true x y e = (refl, cc)
some_if false x y e = cc

modified :
    (test except set clear : List Flag) (flags now : Flags)
    → test_and_modify test except set clear flags ≡ some now
    → (matches test except flags ≡ true) × (now ≡ clear_flags clear (set_flags set flags))
unfolding test_and_modify
modified test except set clear flags now e =
    some_if (matches test except flags) (clear_flags clear (set_flags set flags)) now e

pub tries-IsInOrder :
    {xs : List ℕ} {b : Bool} {s : Sender} (takes : Bool)
    → IsInOrder xs b s
    → IsInOrder xs b (try_add_write_task takes s)
unfolding try_add_write_task clear_flags set_flags
tries-IsInOrder {s = s} takes k =
    let test =
      test_and_modify (write_access ∷ write_pending ∷ write_ready ∷ [])
        (write_access ∷ write_ready ∷ []) (write_pending ∷ []) [] s.event_flag in
    elim (Option-cases test) [
      | inl e ↦ rw (e, try_add_write_task) k
      | inr (flags, e) ↦
          let (m, same) =
            modified (write_access ∷ write_pending ∷ write_ready ∷ [])
              (write_access ∷ write_ready ∷ []) (write_pending ∷ []) [] s.event_flag flags e in
          let f : flags close_ready ≡ s.event_flag close_ready =
            ap (λ (g : Flags). g close_ready) same in
          elim (Bool-cases takes) [
            | inl t ↦
                rw (e, try_add_write_task)
                  (rw t (
                    flags_change-IsInOrder k refl refl refl refl k.quiet (λ l. f ∙ k.shut l)
                      (rw f k.once)))
            | inr t ↦
                rw (e, try_add_write_task)
                  (rw t (
                    flags_change-IsInOrder k refl refl refl refl k.quiet (λ l. f ∙ k.shut l)
                      (rw f k.once)))
          ]
    ]

pub close-close_ready : (s : Sender) → (close s).event_flag close_ready ≡ true
unfolding close test_and_modify matches set_flags clear_flags
close-close_ready s = elim (Bool-cases (s.event_flag close_ready)) [
  | inl e ↦ rw (e, close) e
  | inr e ↦ rw (e, close) refl
]

unmatched : (x y : Bool) → (agree false x && y) ≡ true → x ≡ false
unmatched true y e = sym e
unmatched false y e = refl

pub begins-IsInOrder :
    {xs : List ℕ} {b : Bool} {s : Sender} (tasks : ℕ)
    → s.phase ≡ idle
    → IsInOrder xs b s
    → IsInOrder xs b (write_begins tasks s)
unfolding write_begins matches set_flags clear_flags
begins-IsInOrder {xs = xs} {b = b} {s = s} tasks p k =
    let test = close_ready ∷ write_access ∷ write_ready ∷ write_pending ∷ [] in
    let except = write_access ∷ write_ready ∷ write_pending ∷ [] in
    let clear = write_ready ∷ write_pending ∷ [] in
    let quiet = subst (λ p. Quiet p s.tmp_send_data_list b) p k.quiet in
    elim (Option-cases (test_and_modify test except [] clear s.event_flag)) [
      | inl e ↦
          rw (e, write_begins) (flags_change-IsInOrder k refl refl refl refl k.quiet k.shut k.once)
      | inr (flags, e) ↦
          let (m, same) = modified test except [] clear s.event_flag flags e in
          let f : flags close_ready ≡ s.event_flag close_ready =
            ap (λ (g : Flags). g close_ready) same in
          let unset : s.event_flag close_ready ≡ false = unmatched (s.event_flag close_ready) _ m in
          let fine : b ≡ false = elim (Bool-cases b) [
            | inl t ↦ t ∙ sym (k.shut t) ∙ unset
            | inr t ↦ t
          ] in
          rw (e, write_begins)
            (flags_change-IsInOrder k refl refl refl refl (quiet, fine) (λ l. f ∙ k.shut l)
              (rw f k.once))
    ]
