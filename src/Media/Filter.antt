-- ===== src/Media/Filter.antt =====
-- util/filter.h and util/filter.cc: pictures through an FFmpeg filter graph, on a thread.
pub mod Passing
use live_streaming.Base.{
  ℕ, Bool, true, false, List, [], ◌∷◌, ◌++◌, ◌==◌, ltb, ◌&&◌, not, if◌then◌else◌, length, Option,
  none, some,
}
use live_streaming.Result.{Result, ok, ◌>>=◌}
use live_streaming.Queue.{Queue, size, put_now, try_to_get}
use live_streaming.Media.{Picture}
use live_streaming.Media.Coding.{Coder, drain}

-- A frame with the name of its input; a null pointer is `none`.
pub record Submitted : Type 0 where
  pub input : List ℕ
  pub frame : Option Picture

-- Where the frames of the sink go: to the callback if there is one, else to the queue.
pub record Outputs : Type 0 where
  pub called : List Picture
  pub output_queue : Queue Picture

-- `sources` are the names of the inputs, `graph` the state of the filter graph, whose coder takes
-- a frame for an input (av_buffersrc_add_frame_flags) and gives those of the sink
-- (av_buffersink_get_frame).
pub record Filter (Graph : Type 0) : Type 0 where
  pub sources : List (List ℕ)
  pub graph : Graph
  pub input_queue : Queue Submitted
  pub outputs : Outputs
  pub has_callback : Bool
  pub is_alive : Bool

unfoldable pub same_name : List ℕ → List ℕ → Bool
same_name [] [] = true
same_name [] (d ∷ ds) = false
same_name (c ∷ cs) [] = false
same_name (c ∷ cs) (d ∷ ds) = c == d && same_name cs ds

-- sources_.find.
unfoldable pub has_source : List ℕ → List (List ℕ) → Bool
unfolding same_name
has_source name [] = false
has_source name (s ∷ ss) = if same_name s name then true else has_source name ss

-- What is done with a frame of the sink. The output queue has no capacity, so Put does not wait.
unfoldable pub emit : Bool → Picture → Outputs → Result (Bool × Outputs)
emit true frame o = ok (true, record o { called = o.called ++ frame ∷ [] })
emit false frame o = ok (true, record o { output_queue = (put_now frame o.output_queue).1 })

module _ {Graph : Type 0} where
  unfoldable pub submit : Submitted → Filter Graph → Bool × Filter Graph
  submit given f =
      if not f.is_alive
      then (false, f)
      else if ltb 5 (size f.input_queue)
      then (false, f)
      else (true, record f { input_queue = (put_now given f.input_queue).1 })

  -- The inner loop's end: an error of the sink ends the thread.
  unfoldable pub drained : Filter Graph → Bool × Outputs × Graph → Bool × Filter Graph
  drained f (good, o, graph) =
      (true, record f { outputs = o; graph = graph; is_alive = good && f.is_alive })

module _ {Graph : Type 0} (c : Coder Graph (List ℕ × Picture) Picture) where
  -- A frame of a known input; false where the thread breaks out of its loop.
  unfoldable pub filter_frame : ℕ → List ℕ → Picture → Filter Graph → Result (Bool × Filter Graph)
  unfolding drain emit drained
  filter_frame fuel input frame f = elim (c.send f.graph (input, frame)) [
    | none ↦ ok (false, f)
    | some graph ↦ (do r ← drain c fuel (emit f.has_callback) graph f.outputs; ok (drained f r))
  ]

  unfoldable pub filter_data : ℕ → Submitted → Filter Graph → Result (Bool × Filter Graph)
  unfolding filter_frame has_source
  filter_data fuel given f = if length given.input == 0 then ok (true, f) else elim (given.frame) [
    | none ↦ ok (true, f)
    | some frame ↦
        if has_source given.input f.sources
        then filter_frame fuel given.input frame f
        else ok (true, f)
  ]

  -- One round of the thread, from the end of its wait on.
  unfoldable pub filter_round : ℕ → Filter Graph → Result (Bool × Filter Graph)
  unfolding filter_data
  filter_round fuel f =
      let (item, rest, signals) = try_to_get f.input_queue in
      elim item [
        | none ↦ ok (true, f)
        | some given ↦ filter_data fuel given (record f { input_queue = rest })
      ]
