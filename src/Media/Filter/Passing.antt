-- ===== src/Media/Filter/Passing.antt =====
-- The frames of the sink, and the length of the input queue: util/filter.cc.
use live_streaming.Base.{
  ℕ, ◌<◌, ◌≡◌, refl, ap, ◌∙◌, Bool, true, false, ◌&&◌, ◌==◌, List, [], ◌∷◌, ◌++◌, length, some,
  append_assoc, append-nil, arith, if_true,
}
use live_streaming.Result.{ok}
use live_streaming.Queue.{put_now, try_to_get}
use live_streaming.Media.{Picture}
use live_streaming.Media.Coding.{Coder, Readies, run_steps, drain-Drained}
use live_streaming.Media.Filter.{
  Filter, Submitted, Outputs, emit, drained, has_source, filter_frame, filter_data, filter_round,
}

-- The outputs with these frames appended, to the calls of the callback or to the queue.
abbrev pub passed : Bool → List Picture → Outputs → Outputs
passed true frames o = record o { called = o.called ++ frames }
passed false frames o = record o {
  output_queue = record (o.output_queue) { q = o.output_queue.q ++ frames };
}

emits-run :
    (callback : Bool) (frames : List Picture) (end : Bool) (o : Outputs)
    → run_steps (emit callback) frames end o ≡ ok (end, passed callback frames o)
unfolding run_steps emit put_now
emits-run true [] end o = rw (append-nil o.called) refl
emits-run false [] end o = rw (append-nil o.output_queue.q) refl
emits-run true (x ∷ xs) end o =
    emits-run true xs end (record o { called = o.called ++ x ∷ [] })
    ∙ ap (λ (ys : List Picture). ok (end, record o { called = ys }))
        (append_assoc o.called (x ∷ []) xs)
emits-run false (x ∷ xs) end o =
    emits-run false xs end
      (record o { output_queue = record (o.output_queue) { q = o.output_queue.q ++ x ∷ [] } })
    ∙ ap
        (λ (ys : List Picture).
          ok (end, record o { output_queue = record (o.output_queue) { q = ys } }))
        (append_assoc o.output_queue.q (x ∷ []) xs)

module _ {Graph : Type 0} (c : Coder Graph (List ℕ × Picture) Picture) where
  -- A frame that the graph takes, with the fuel for the frames it has ready.
  filter_frame-passed :
      (fuel : ℕ) (f : Filter Graph) (input : List ℕ) (frame : Picture) (graph : Graph)
      (frames : List Picture) (end : Bool)
      → c.send f.graph (input, frame) ≡ some graph
      → Readies c graph frames end
      → length frames < fuel
      → (next : Graph) × (filter_frame c fuel input frame f
          ≡ ok (
            true,
            record f {
              outputs = passed f.has_callback frames f.outputs;
              graph = next;
              is_alive = end && f.is_alive;
            },
          ))
  unfolding filter_frame drained
  filter_frame-passed fuel f input frame graph frames end e r l =
      let d =
        drain-Drained c fuel (emit f.has_callback) graph f.outputs frames end end _ r l
          (emits-run f.has_callback frames end f.outputs) in
      (d.next, rw (filter_frame, e) (rw d.runs refl))

  -- Take the first frame of the input queue, and suppose that its input is one of the graph's, that
  -- the graph takes it, has frames ready and then pauses or fails. Then a round passes on exactly
  -- these frames, in their order, to the callback or else to the output queue; the thread goes on, and
  -- the filter is alive after it if it was and the graph paused. The fuel is more than the frames.
  pub filter_round-Passes :
      (fuel : ℕ) (f : Filter Graph) (input : List ℕ) (frame : Picture) (rest : List Submitted)
      (graph : Graph) (frames : List Picture) (end : Bool)
      → f.input_queue.q ≡ record { input = input; frame = some frame } ∷ rest
      → 0 < length input
      → has_source input f.sources ≡ true
      → c.send f.graph (input, frame) ≡ some graph
      → Readies c graph frames end
      → length frames < fuel
      → (next : Graph) × (filter_round c fuel f
          ≡ ok (
            true,
            record f {
              input_queue = record (f.input_queue) { q = rest };
              outputs = passed f.has_callback frames f.outputs;
              graph = next;
              is_alive = end && f.is_alive;
            },
          ))
  unfolding filter_round try_to_get filter_data
  filter_round-Passes fuel f input frame rest graph frames end q n s e r l =
      let g : Filter Graph = record f { input_queue = record (f.input_queue) { q = rest } } in
      let p = filter_frame-passed fuel g input frame graph frames end e r l in
      let named : (length input == 0) ≡ false = ground arith in
      let known = if_true _ (filter_frame c fuel input frame g) (ok (true, g)) s in
      (p.0, rw (q, named) (known ∙ p.1))
