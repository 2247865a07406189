-- ===== src/Queue/Runs.antt =====
-- The calls of util/queue.h in whatever order the threads get the mutex.
use live_streaming.Base.{
  ℕ, ◌≡◌, refl, sym, ap, ◌∙◌, Bool, true, false, Bool-cases, inl, inr, List, [], ◌∷◌, ◌++◌, ◌==◌,
  leb, ◌&&◌, not, if◌then◌else◌, length, Option, none, some, append_assoc, append-nil,
}
use live_streaming.Queue.{
  Queue, Done, size, has_room, put_all_now, put_all, put_now, put, timed_put_now, timed_put,
  try_to_get, get, clear,
}

-- One section under the mutex: a call that begins, or one that goes on after its wait. The wait for
-- room ends when there is room; TimedPut and the getters test again.
pub data Event {ℓ} (A : Type ℓ) : Type ℓ where
  puts_all : List A → Event A
  resumes_all : List A → Event A
  puts : A → Event A
  resumes : A → Event A
  puts_in_time : A → Event A
  timed_out : A → Event A
  tries gets awakes clears : Event A

-- What entered the queue, what left it, what of that callers got, and the queue.
pub record Log {ℓ} (A : Type ℓ) : Type ℓ where
  pub entered : List A
  pub left : List A
  pub given : List A
  pub queue : Queue A

module _ {ℓ} {A : Type ℓ} where
  abbrev pub idle : Queue A → Log A
  idle s = record { entered = []; left = []; given = []; queue = s }

  unfoldable pub put_log : List A → {B : Type 0} → Option (Done A B) → Queue A → Log A
  put_log ts none s = idle s
  put_log ts (some (b, s', n)) s = record { entered = ts; left = []; given = []; queue = s' }

  unfoldable pub timed_log : A → Option (Done A Bool) → Queue A → Log A
  timed_log t none s = idle s
  timed_log t (some (true, s', n)) s = record {
    entered = t ∷ [];
    left = [];
    given = [];
    queue = s';
  }
  timed_log t (some (false, s', n)) s = record { entered = []; left = []; given = []; queue = s' }

  unfoldable pub get_log : Option (Done A (Option A)) → Queue A → Log A
  get_log none s = idle s
  get_log (some (none, s', n)) s = record { entered = []; left = []; given = []; queue = s' }
  get_log (some (some t, s', n)) s = record {
    entered = [];
    left = t ∷ [];
    given = t ∷ [];
    queue = s';
  }

  -- A call that waits changes nothing.
  unfoldable pub step : Event A → Queue A → Log A
  unfolding put_log timed_log get_log
  step (puts_all ts) s = put_log ts (put_all ts s) s
  step (resumes_all ts) s = if has_room s then put_log ts (some (put_all_now ts s)) s else idle s
  step (puts t) s = put_log (t ∷ []) (put t s) s
  step (resumes t) s = if has_room s then put_log (t ∷ []) (some (put_now t s)) s else idle s
  step (puts_in_time t) s = timed_log t (timed_put t s) s
  step (timed_out t) s = timed_log t (some (timed_put_now t s)) s
  step tries s = get_log (some (try_to_get s)) s
  step gets s = get_log (get s) s
  step awakes s = get_log (some (try_to_get s)) s
  step clears s = record { entered = []; left = s.q; given = []; queue = clear s }

  unfoldable pub run : List (Event A) → Queue A → Log A
  unfolding step
  run [] s = idle s
  run (e ∷ es) s =
      let first = step e s in
      let rest = run es first.queue in
      record {
        entered = first.entered ++ rest.entered;
        left = first.left ++ rest.left;
        given = first.given ++ rest.given;
        queue = rest.queue;
      }

  -- Nothing is lost, invented or reordered, and the capacity stays.
  pub record IsFifo (s : Queue A) (l : Log A) : Type ℓ where
    pub order : l.left ++ l.queue.q ≡ s.q ++ l.entered
    pub capacity_kept : l.queue.capacity ≡ s.capacity

  idle-IsFifo : (s : Queue A) → IsFifo s (idle s)
  idle-IsFifo s = record { order = sym (append-nil s.q); capacity_kept = refl }

  put_log-IsFifo :
      (b : Bool) (ts : List A) (s : Queue A)
      → IsFifo s (put_log ts (if b then none else some (put_all_now ts s)) s)
  unfolding put_log put_all_now
  put_log-IsFifo true ts s = idle-IsFifo s
  put_log-IsFifo false ts s = record { order = refl; capacity_kept = refl }

  timed_put-IsFifo : (t : A) (s : Queue A) → IsFifo s (timed_log t (some (timed_put_now t s)) s)
  unfolding timed_log timed_put_now
  timed_put-IsFifo t s = elim (Bool-cases (not (s.capacity == 0) && leb s.capacity (size s))) [
    | inl e ↦ rw e (idle-IsFifo s)
    | inr e ↦ rw e (record { order = refl; capacity_kept = refl })
  ]

  resumed-IsFifo :
      (b : Bool) (ts : List A) (s : Queue A)
      → IsFifo s (if b then put_log ts (some (put_all_now ts s)) s else idle s)
  unfolding put_log put_all_now
  resumed-IsFifo true ts s = record { order = refl; capacity_kept = refl }
  resumed-IsFifo false ts s = idle-IsFifo s

  in_time-IsFifo :
      (b : Bool) (t : A) (s : Queue A)
      → IsFifo s (timed_log t (if b then none else some (timed_put_now t s)) s)
  unfolding timed_log
  in_time-IsFifo true t s = idle-IsFifo s
  in_time-IsFifo false t s = timed_put-IsFifo t s

  take_front-IsFifo :
      (xs : List A) (cap : ℕ)
      → let s : Queue A = record { q = xs; capacity = cap } in
        IsFifo s (get_log (some (try_to_get s)) s)
  unfolding get_log try_to_get
  take_front-IsFifo [] cap = record { order = refl; capacity_kept = refl }
  take_front-IsFifo (x ∷ xs) cap = record {
    order = ap (◌∷◌ x) (sym (append-nil xs));
    capacity_kept = refl;
  }

  get_log-IsFifo :
      (b : Bool) (s : Queue A) → IsFifo s (get_log (if b then none else some (try_to_get s)) s)
  unfolding get_log
  get_log-IsFifo true s = idle-IsFifo s
  get_log-IsFifo false s = take_front-IsFifo s.q s.capacity

  step-IsFifo : (e : Event A) (s : Queue A) → IsFifo s (step e s)
  unfolding step put_all put put_now put_all_now timed_put get clear
  step-IsFifo (puts_all ts) s = put_log-IsFifo _ ts s
  step-IsFifo (resumes_all ts) s = resumed-IsFifo (has_room s) ts s
  step-IsFifo (puts t) s = put_log-IsFifo _ (t ∷ []) s
  step-IsFifo (resumes t) s = resumed-IsFifo (has_room s) (t ∷ []) s
  step-IsFifo (puts_in_time t) s = in_time-IsFifo _ t s
  step-IsFifo (timed_out t) s = timed_put-IsFifo t s
  step-IsFifo tries s = get_log-IsFifo false s
  step-IsFifo gets s = get_log-IsFifo (length s.q == 0) s
  step-IsFifo awakes s = get_log-IsFifo false s
  step-IsFifo clears s = record { order = refl; capacity_kept = refl }

  -- In whatever order the sections come.
  pub run-IsFifo : (es : List (Event A)) (s : Queue A) → IsFifo s (run es s)
  unfolding run
  run-IsFifo [] s = idle-IsFifo s
  run-IsFifo (e ∷ es) s =
      let p = step-IsFifo e s in
      let q = run-IsFifo es (step e s).queue in
      record {
        order =
            append_assoc (step e s).left (run es (step e s).queue).left
              (run es (step e s).queue).queue.q
            ∙ ap (λ (xs : List A). (step e s).left ++ xs) q.order
            ∙ sym
                (append_assoc (step e s).left (step e s).queue.q (run es (step e s).queue).entered)
            ∙ ap (λ (xs : List A). xs ++ (run es (step e s).queue).entered) p.order
            ∙ append_assoc s.q (step e s).entered (run es (step e s).queue).entered;
        capacity_kept = q.capacity_kept ∙ p.capacity_kept;
      }
