-- ===== src/Player/Reading.antt =====
-- player/main.cc: the thread that reads packets and gives them to the two decoding threads; and
-- IsVideoPacket and IsAudioPacket of player/context.h.
use live_streaming.Base.{
  ℤ, ◌≡◌, ◌≢◌, refl, sym, ap, ◌∙◌, Bool, true, false, Bool-cases, inl, inr, List, [], ◌∷◌, ◌++◌,
  ◌==ℤ◌, if◌then◌else◌, Option, none, some, append_assoc, append-nil, arith,
}
use live_streaming.Queue.{Queue, put_now}

-- A round of the loop: a packet with its stream's index, an error of av_read_frame, or the flag set
-- by a signal or by another thread before the round.
pub data Round (Packet : Type 0) : Type 0 where
  reads : ℤ → Packet → Round Packet
  fails quits : Round Packet

same_stream : (i j k : ℤ) → (i ==ℤ j) ≡ true → j ≢ k → (i ==ℤ k) ≡ false
same_stream i j k e n = elim (Bool-cases (i ==ℤ k)) [
  | inl f ↦ absurd (n (ground arith))
  | inr f ↦ f
]

-- A queued null pointer is `none`. The queues have no capacity, so Put does not wait.
pub record Queues (Packet : Type 0) : Type 0 where
  pub video : Queue (Option Packet)
  pub audio : Queue (Option Packet)
  pub quit_flag : Bool

module _ {Packet : Type 0} where
  unfoldable pub put_video : Option Packet → Queues Packet → Queues Packet
  put_video p s = record s { video = (put_now p s.video).1 }

  unfoldable pub put_audio : Option Packet → Queues Packet → Queues Packet
  put_audio p s = record s { audio = (put_now p s.audio).1 }

  -- What follows the loop.
  unfoldable pub stop_reading : Queues Packet → Queues Packet
  unfolding put_video put_audio
  stop_reading s = record (put_audio none (put_video none s)) { quit_flag = true }

  -- For the indices of the video and the audio stream. After the last round the thread goes on to
  -- read.
  unfoldable pub read_packets : ℤ → ℤ → List (Round Packet) → Queues Packet → Queues Packet
  unfolding put_video put_audio stop_reading
  read_packets video audio [] s = s
  read_packets video audio (quits ∷ rounds) s = stop_reading (record s { quit_flag = true })
  read_packets video audio (fails ∷ rounds) s = stop_reading s
  read_packets video audio (reads i p ∷ rounds) s =
      let next =
        if i ==ℤ video
        then put_video (some p) s
        else if i ==ℤ audio
        then put_audio (some p) s
        else s in
      read_packets video audio rounds next

  -- The packets of a stream, up to the end of the loop, and then a null pointer if it has ended.
  abbrev pub packets_of : ℤ → List (Round Packet) → List (Option Packet)
  packets_of stream [] = []
  packets_of stream (quits ∷ rounds) = none ∷ []
  packets_of stream (fails ∷ rounds) = none ∷ []
  packets_of stream (reads i p ∷ rounds) =
      let rest = packets_of stream rounds in if i ==ℤ stream then some p ∷ rest else rest

  pub record Routes (video audio : ℤ) (rounds : List (Round Packet)) (s t : Queues Packet)
      : Type 0 where
    pub to_video : t.video.q ≡ s.video.q ++ packets_of video rounds
    pub to_audio : t.audio.q ≡ s.audio.q ++ packets_of audio rounds

  packets_hit :
      (i stream : ℤ) (p : Packet) (rounds : List (Round Packet))
      → (i ==ℤ stream) ≡ true
      → packets_of stream (reads i p ∷ rounds) ≡ some p ∷ packets_of stream rounds
  packets_hit i stream p rounds e = rw e refl

  packets_miss :
      (i stream : ℤ) (p : Packet) (rounds : List (Round Packet))
      → (i ==ℤ stream) ≡ false
      → packets_of stream (reads i p ∷ rounds) ≡ packets_of stream rounds
  packets_miss i stream p rounds e = rw e refl

  -- If the two streams are not the same, each queue gets the packets of its stream in the order in
  -- which they are read, and a null pointer when the loop has ended; packets of other streams are
  -- dropped.
  pub read_packets-Routes :
      (video audio : ℤ) (rounds : List (Round Packet)) (s : Queues Packet)
      → video ≢ audio
      → Routes video audio rounds s (read_packets video audio rounds s)
  unfolding read_packets put_video put_audio stop_reading put_now
  read_packets-Routes video audio [] s n = record {
    to_video = sym (append-nil s.video.q);
    to_audio = sym (append-nil s.audio.q);
  }
  read_packets-Routes video audio (quits ∷ rounds) s n = record { to_video = refl; to_audio = refl }
  read_packets-Routes video audio (fails ∷ rounds) s n = record { to_video = refl; to_audio = refl }
  read_packets-Routes video audio (reads i p ∷ rounds) s n = elim (Bool-cases (i ==ℤ video)) [
    | inl e ↦
        let r = read_packets-Routes video audio rounds (put_video (some p) s) n in
        rw (read_packets, e)
          (record {
            to_video =
                r.to_video
                ∙ append_assoc s.video.q (some p ∷ []) (packets_of video rounds)
                ∙ ap (λ (xs : List (Option Packet)). s.video.q ++ xs)
                    (sym (packets_hit i video p rounds e));
            to_audio =
                r.to_audio
                ∙ ap (λ (xs : List (Option Packet)). s.audio.q ++ xs)
                    (sym (packets_miss i audio p rounds (same_stream i video audio e n)));
          })
    | inr e ↦
        rw (read_packets, e)
          (elim (Bool-cases (i ==ℤ audio)) [
            | inl f ↦
                let r = read_packets-Routes video audio rounds (put_audio (some p) s) n in
                rw f (record {
                  to_video =
                      r.to_video
                      ∙ ap (λ (xs : List (Option Packet)). s.video.q ++ xs)
                          (sym (packets_miss i video p rounds e));
                  to_audio =
                      r.to_audio
                      ∙ append_assoc s.audio.q (some p ∷ []) (packets_of audio rounds)
                      ∙ ap (λ (xs : List (Option Packet)). s.audio.q ++ xs)
                          (sym (packets_hit i audio p rounds f));
                })
            | inr f ↦
                let r = read_packets-Routes video audio rounds s n in
                rw f (record {
                  to_video =
                      r.to_video
                      ∙ ap (λ (xs : List (Option Packet)). s.video.q ++ xs)
                          (sym (packets_miss i video p rounds e));
                  to_audio =
                      r.to_audio
                      ∙ ap (λ (xs : List (Option Packet)). s.audio.q ++ xs)
                          (sym (packets_miss i audio p rounds f));
                })
          ])
  ]
