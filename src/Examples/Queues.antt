-- ===== src/Examples/Queues.antt =====
-- A queue of two items at most: util/queue.h.
use live_streaming.Base.{ℕ, List, [], ◌∷◌, ◌++◌, ◌≡◌, ◌+◌, ◌≤◌, length, arith}
use live_streaming.Queue.{new_queue}
use live_streaming.Queue.Runs.{
  Event, puts_all, puts, resumes, puts_in_time, timed_out, gets, clears, run, IsFifo,
}
use live_streaming.Queue.Giving.{NoClears, run-gives}
use live_streaming.Queue.Capacity.{run-bounded}

abbrev traffic : List (Event ℕ)
traffic =
    puts 1
    ∷ puts_all (2 ∷ 3 ∷ [])
    ∷ puts 4
    ∷ gets
    ∷ resumes 4
    ∷ gets
    ∷ puts_in_time 5
    ∷ timed_out 5
    ∷ clears
    ∷ []

abbrev steady : List (Event ℕ)
steady =
    puts 1
    ∷ puts_all (2 ∷ 3 ∷ [])
    ∷ puts 4
    ∷ gets
    ∷ resumes 4
    ∷ gets
    ∷ puts_in_time 5
    ∷ timed_out 5
    ∷ []

run-gives_example :
    IsFifo (new_queue 2) (run steady (new_queue 2))
    × (NoClears steady
        → (run steady (new_queue 2)).given ++ (run steady (new_queue 2)).queue.q
          ≡ (new_queue 2).q ++ (run steady (new_queue 2)).entered)
run-gives_example = run-gives steady (new_queue 2)

run-bounded_example : length (run traffic (new_queue 2)).queue.q ≤ 2 + 1
unfolding new_queue
run-bounded_example =
    run-bounded 1 traffic (new_queue 2) (omega arith) (omega arith) (omega arith, tt)
