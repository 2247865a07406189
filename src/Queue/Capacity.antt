-- ===== src/Queue/Capacity.antt =====
-- The length of the queue of util/queue.h.
use live_streaming.Base.{
  ℕ, suc, ◌+◌, ◌≤◌, ◌<◌, ◌≡◌, refl, subst, Bool, true, false, Bool-cases, inl, inr, List, [], ◌∷◌,
  ◌++◌, ◌==◌, ltb, leb, ◌&&◌, not, if◌then◌else◌, length, none, some, length-append, arith,
}
use live_streaming.Queue.{
  Queue, size, has_room, put_all_now, put_all, put_now, put, timed_put_now, timed_put, try_to_get,
  get, clear,
}
use live_streaming.Queue.Runs.{
  Event, puts_all, resumes_all, puts, resumes, puts_in_time, timed_out, tries, gets, awakes, clears,
  put_log, timed_log, get_log, step, run, run-IsFifo,
}

module _ {ℓ} {A : Type ℓ} (n : ℕ) where
  -- No vector has more than n + 1 items.
  abbrev pub IsSmall : List (Event A) → Type 0
  IsSmall [] = Unit
  IsSmall (puts_all ts ∷ es) = (length ts ≤ suc n) × IsSmall es
  IsSmall (resumes_all ts ∷ es) = (length ts ≤ suc n) × IsSmall es
  IsSmall (_ ∷ es) = IsSmall es

  record Holds (s : Queue A) : Type 0 where
    bounded : 0 < s.capacity
    held : length s.q ≤ s.capacity + n

  grown :
      (ts : List A) (s : Queue A)
      → Holds s
      → length ts + length s.q ≤ s.capacity + n
      → Holds (record s { q = s.q ++ ts })
  grown ts s h l = record { bounded = h.bounded; held = omega (arith, length-append s.q ts, l) }

  guarded-Holds :
      (b : Bool) (ts : List A) (s : Queue A)
      → Holds s
      → (b ≡ false → length ts + length s.q ≤ s.capacity + n)
      → Holds (put_log ts (if b then none else some (put_all_now ts s)) s).queue
  unfolding put_log put_all_now
  guarded-Holds true ts s h l = h
  guarded-Holds false ts s h l = grown ts s h (l refl)

  resumed-Holds :
      (b : Bool) (ts : List A) (s : Queue A)
      → Holds s
      → (b ≡ true → length ts + length s.q ≤ s.capacity + n)
      → Holds
          (if b
            then put_log ts (some (put_all_now ts s)) s
            else (record { entered = []; left = []; given = []; queue = s })).queue
  unfolding put_log put_all_now
  resumed-Holds true ts s h l = grown ts s h (l refl)
  resumed-Holds false ts s h l = h

  timed_out-Holds :
      (t : A) (s : Queue A) → Holds s → Holds (timed_log t (some (timed_put_now t s)) s).queue
  unfolding timed_log timed_put_now size
  timed_out-Holds t s h = elim (Bool-cases (not (s.capacity == 0) && leb s.capacity (length s.q))) [
    | inl e ↦ rw e h
    | inr e ↦
        let b = h.bounded in
        let l : 1 + length s.q ≤ s.capacity + n = ground arith in rw e (grown (t ∷ []) s h l)
  ]

  in_time-Holds :
      (b : Bool) (t : A) (s : Queue A)
      → Holds s
      → Holds (timed_log t (if b then none else some (timed_put_now t s)) s).queue
  unfolding timed_log
  in_time-Holds true t s h = h
  in_time-Holds false t s h = timed_out-Holds t s h

  taken-Holds :
      (xs : List A) (cap : ℕ)
      → let s : Queue A = record { q = xs; capacity = cap } in
        Holds s → Holds (get_log (some (try_to_get s)) s).queue
  unfolding get_log try_to_get
  taken-Holds [] cap h = h
  taken-Holds (x ∷ xs) cap h =
      let l = h.held in record { bounded = h.bounded; held = omega (arith, l) }

  got-Holds :
      (b : Bool) (s : Queue A)
      → Holds s
      → Holds (get_log (if b then none else some (try_to_get s)) s).queue
  unfolding get_log
  got-Holds true s h = h
  got-Holds false s h = taken-Holds s.q s.capacity h

  step-Holds :
      (e : Event A) (es : List (Event A)) (s : Queue A)
      → IsSmall (e ∷ es)
      → Holds s
      → Holds (step e s).queue × IsSmall es
  unfolding step put_all put put_now put_all_now timed_put get clear has_room size
  step-Holds (puts_all ts) es s f h =
      let c = h.bounded in
      let l = f.0 in let k = h.held in (guarded-Holds _ ts s h (λ e. ground arith), f.1)
  step-Holds (resumes_all ts) es s f h =
      let l = f.0 in (resumed-Holds (ltb (length s.q) s.capacity) ts s h (λ e. ground arith), f.1)
  step-Holds (puts t) es s f h =
      let c = h.bounded in (guarded-Holds _ (t ∷ []) s h (λ e. ground arith), f)
  step-Holds (resumes t) es s f h =
      (resumed-Holds (ltb (length s.q) s.capacity) (t ∷ []) s h (λ e. ground arith), f)
  step-Holds (puts_in_time t) es s f h = (in_time-Holds _ t s h, f)
  step-Holds (timed_out t) es s f h = (timed_out-Holds t s h, f)
  step-Holds tries es s f h = (got-Holds false s h, f)
  step-Holds gets es s f h = (got-Holds (length s.q == 0) s h, f)
  step-Holds awakes es s f h = (got-Holds false s h, f)
  step-Holds clears es s f h = (record { bounded = h.bounded; held = omega arith }, f)

  run-Holds : (es : List (Event A)) (s : Queue A) → IsSmall es → Holds s → Holds (run es s).queue
  unfolding run
  run-Holds [] s f h = h
  run-Holds (e ∷ es) s f h =
      let (h', f') = step-Holds e es s f h in run-Holds es (step e s).queue f' h'

-- Take a queue with a capacity that is not 0, and at most the capacity and n items. If no vector that
-- is put has more than n + 1 items, it has at most the capacity and n items after whatever the
-- threads do. (With n = 0, when items are put one by one, the capacity is a bound.)
pub run-bounded {ℓ} :
    {A : Type ℓ} (n : ℕ) (es : List (Event A)) (s : Queue A)
    → 0 < s.capacity
    → length s.q ≤ s.capacity + n
    → IsSmall n es
    → length (run es s).queue.q ≤ s.capacity + n
run-bounded n es s b h f =
    let k = (run-Holds n es s f (record { bounded = b; held = h })).held in
    subst (λ (c : ℕ). length (run es s).queue.q ≤ c + n) (run-IsFifo es s).capacity_kept k
