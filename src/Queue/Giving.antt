-- ===== src/Queue/Giving.antt =====
-- What callers get from the queue of util/queue.h, in whatever order the threads get the mutex.
use live_streaming.Base.{
  ◌≡◌, refl, ap, ◌∙◌, Bool, true, false, List, [], ◌∷◌, ◌++◌, if◌then◌else◌, Option, none, some,
}
use live_streaming.Queue.{
  Queue, Done, has_room, put_all_now, put_all, put_now, put, timed_put_now, timed_put, try_to_get,
  get,
}
use live_streaming.Queue.Runs.{
  Event, puts_all, resumes_all, puts, resumes, puts_in_time, timed_out, tries, gets, awakes, clears,
  idle, put_log, timed_log, get_log, step, run, IsFifo, run-IsFifo,
}

module _ {ℓ} {A : Type ℓ} where
  -- Clear is not called.
  abbrev pub NoClears : List (Event A) → Type 0
  NoClears [] = Unit
  NoClears (clears ∷ es) = ⊥
  NoClears (e ∷ es) = NoClears es

  put_log-given :
      (ts : List A) {B : Type 0} (o : Option (Done A B)) (s : Queue A)
      → (put_log ts o s).given ≡ (put_log ts o s).left
  unfolding put_log
  put_log-given ts none s = refl
  put_log-given ts (some (b, t, n)) s = refl

  timed_log-given :
      (t : A) (o : Option (Done A Bool)) (s : Queue A)
      → (timed_log t o s).given ≡ (timed_log t o s).left
  unfolding timed_log
  timed_log-given t none s = refl
  timed_log-given t (some (true, s', n)) s = refl
  timed_log-given t (some (false, s', n)) s = refl

  get_log-given :
      (o : Option (Done A (Option A))) (s : Queue A) → (get_log o s).given ≡ (get_log o s).left
  unfolding get_log
  get_log-given none s = refl
  get_log-given (some (none, s', n)) s = refl
  get_log-given (some (some t, s', n)) s = refl

  resumed-given :
      (b : Bool) (ts : List A) {B : Type 0} (o : Option (Done A B)) (s : Queue A)
      → (if b then put_log ts o s else idle s).given ≡ (if b then put_log ts o s else idle s).left
  resumed-given true ts o s = put_log-given ts o s
  resumed-given false ts o s = refl

  step-given :
      (e : Event A) (es : List (Event A)) (s : Queue A)
      → NoClears (e ∷ es)
      → ((step e s).given ≡ (step e s).left) × NoClears es
  unfolding step
  step-given (puts_all ts) es s n = (put_log-given ts (put_all ts s) s, n)
  step-given (resumes_all ts) es s n =
      (resumed-given (has_room s) ts (some (put_all_now ts s)) s, n)
  step-given (puts t) es s n = (put_log-given (t ∷ []) (put t s) s, n)
  step-given (resumes t) es s n = (resumed-given (has_room s) (t ∷ []) (some (put_now t s)) s, n)
  step-given (puts_in_time t) es s n = (timed_log-given t (timed_put t s) s, n)
  step-given (timed_out t) es s n = (timed_log-given t (some (timed_put_now t s)) s, n)
  step-given tries es s n = (get_log-given (some (try_to_get s)) s, n)
  step-given gets es s n = (get_log-given (get s) s, n)
  step-given awakes es s n = (get_log-given (some (try_to_get s)) s, n)
  step-given clears es s n = absurd n

  run-given : (es : List (Event A)) (s : Queue A) → NoClears es → (run es s).given ≡ (run es s).left
  unfolding run
  run-given [] s n = refl
  run-given (e ∷ es) s n =
      let (first, later) = step-given e es s n in
      rw (first, run-given es (step e s).queue later) refl

  -- A call being one section under the mutex, or two where it waits, and the sections coming in
  -- whatever order: what left the queue, to a caller or by Clear, in its order, and then what the queue
  -- holds, is what it held and then what entered, in its order; the capacity stays. If Clear is not
  -- called, callers got all that left, so that nothing is lost.
  pub run-gives :
      (es : List (Event A)) (s : Queue A)
      → IsFifo s (run es s)
        × (NoClears es → (run es s).given ++ (run es s).queue.q ≡ s.q ++ (run es s).entered)
  run-gives es s = (
    run-IsFifo es s,
    λ n.
        ap (λ (xs : List A). xs ++ (run es s).queue.q) (run-given es s n) ∙ (run-IsFifo es s).order,
  )
