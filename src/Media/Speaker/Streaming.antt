-- ===== src/Media/Speaker/Streaming.antt =====
-- Speak's calls of Put and SDL's callback, util/speaker.cc, in any order, against a stream of bytes.
use live_streaming.Base.{
  ℕ, ◌≡◌, refl, ap, ◌∙◌, sym, ◌⊎◌, inl, inr, Bool-cases, List, [], ◌∷◌, ◌++◌, ◌==◌, leb, ◌&&◌, not,
  take, drop, none, some, append_assoc, append-nil,
}
use live_streaming.Result.{Result, ok, ◌>>=◌}
use live_streaming.Queue.{Queue, put, put_now, has_room, size}
use live_streaming.Media.{Sample}
use live_streaming.Media.Speaker.{Speaker, AudioLibrary, size_of, sdl_audio_device_callback}
use live_streaming.Media.Speaker.Playback.{IsWhole, AreWhole, bytes_of, pending, callback-Plays}

-- Put of a frame by Speak, or one call of the callback.
pub data Event : Type 0 where
  puts : Sample → Event
  calls : ℕ → Event

-- The stream: bytes are written at its end, and up to so many read off its front.
pub data ByteEvent : Type 0 where
  writes : List ℕ → ByteEvent
  reads : ℕ → ByteEvent

-- What was read, and the bytes that are left.
unfoldable pub run_bytes : List ByteEvent → List ℕ → List (List ℕ) × List ℕ
run_bytes [] bytes = ([], bytes)
run_bytes (writes more ∷ es) bytes = run_bytes es (bytes ++ more)
run_bytes (reads n ∷ es) bytes =
    let (outs, left) = run_bytes es (drop n bytes) in (take n bytes ∷ outs, left)

put_cases :
    (sample : Sample) (queue : Queue Sample)
    → (put sample queue ≡ none) ⊎ (put sample queue ≡ some (put_now sample queue))
unfolding put
put_cases sample queue =
    let waits =
      not (queue.capacity == 0) && leb queue.capacity (size queue) && not (has_room queue) in
    elim (Bool-cases waits) [ inl e ↦ inl (rw e refl) | inr e ↦ inr (rw e refl) ]

module _ (lib : AudioLibrary) where
  -- The frames have the bytes that the callback copies.
  abbrev pub PutWhole : List Event → Type 0
  PutWhole [] = Unit
  PutWhole (puts sample ∷ es) = IsWhole lib sample × PutWhole es
  PutWhole (calls len ∷ es) = PutWhole es

  bytes_of-append :
      (xs : List Sample) (x : Sample)
      → bytes_of lib (xs ++ x ∷ []) ≡ bytes_of lib xs ++ take (size_of lib x) x.samples
  bytes_of-append [] x = append-nil _
  bytes_of-append (y ∷ ys) x =
      ap (λ (bs : List ℕ). take (size_of lib y) y.samples ++ bs) (bytes_of-append ys x)
      ∙ sym (append_assoc (take (size_of lib y) y.samples) (bytes_of lib ys) _)

  AreWhole-append :
      (xs : List Sample) (x : Sample)
      → AreWhole lib xs
      → IsWhole lib x
      → AreWhole lib (xs ++ x ∷ [])
  AreWhole-append [] x w v = (v, tt)
  AreWhole-append (y ∷ ys) x w v = (w.0, AreWhole-append ys x w.1 v)

module _ (lib : AudioLibrary) {Context : Type 0} where
  -- What the device got in each call, what was done to the stream, and the speaker. A Put that has to
  -- wait does nothing.
  unfoldable pub run :
      List Event → Speaker Context → Result (List (List ℕ) × List ByteEvent × Speaker Context)
  run [] s = ok ([], [], s)
  run (puts sample ∷ es) s = elim (put sample s.sample_queue) [
    | none ↦ run es s
    | some (n, queue, signals) ↦ (do
      (outs, log, s') ← run es (record s { sample_queue = queue })
      ok (outs, writes (take (size_of lib sample) sample.samples) ∷ log, s'))
  ]
  run (calls len ∷ es) s = do
    (heard, next) ← sdl_audio_device_callback lib len s
    (outs, log, s') ← run es next
    ok (heard.mixed ∷ outs, reads len ∷ log, s')

  -- A run ends, and the device gets in each call what a stream gives that starts with the pending
  -- bytes, to which the bytes of a frame are written when its Put goes through, and of which the
  -- call reads as many bytes as it was asked for.
  pub record Refines (es : List Event) (s : Speaker Context) : Type 0 where
    pub outs : List (List ℕ)
    pub log : List ByteEvent
    pub next : Speaker Context
    pub runs : run es s ≡ ok (outs, log, next)
    pub stream : run_bytes log (pending lib s) ≡ (outs, pending lib next)

  -- If the frames have the bytes that are copied from them, then the speaker's queue and buffer, with
  -- Puts and callbacks in any order, refine a stream of bytes.
  pub run-Refines :
      (es : List Event) (s : Speaker Context)
      → PutWhole lib es
      → AreWhole lib s.sample_queue.q
      → Refines es s
  unfolding run run_bytes put_now
  run-Refines [] s p w = record { outs = []; log = []; next = s; runs = refl; stream = refl }
  run-Refines (puts sample ∷ es) s p w = elim (put_cases sample s.sample_queue) [
    | inl e ↦
        let r = run-Refines es s p.1 w in
        record {
          outs = r.outs;
          log = r.log;
          next = r.next;
          runs = rw (run, e) r.runs;
          stream = r.stream;
        }
    | inr e ↦
        let queue = (put_now sample s.sample_queue).1 in
        let r =
          run-Refines es (record s { sample_queue = queue }) p.1
            (AreWhole-append lib s.sample_queue.q sample w p.0) in
        record {
          outs = r.outs;
          log = writes (take (size_of lib sample) sample.samples) ∷ r.log;
          next = r.next;
          runs = rw (run, e) (rw r.runs refl);
          stream =
              ap (run_bytes r.log) (
                append_assoc s.sample_buffer (bytes_of lib s.sample_queue.q) _
                ∙ ap (λ (bs : List ℕ). s.sample_buffer ++ bs)
                    (sym (bytes_of-append lib s.sample_queue.q sample)))
              ∙ r.stream;
        }
  ]
  run-Refines (calls len ∷ es) s p w =
      let c = callback-Plays lib len s w in
      let r = run-Refines es c.next p c.whole in
      record {
        outs = c.heard.mixed ∷ r.outs;
        log = reads len ∷ r.log;
        next = r.next;
        runs = rw c.runs (rw r.runs refl);
        stream = rw (sym c.kept, r.stream, sym c.mixed) refl;
      }
