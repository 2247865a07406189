-- ===== src/Server/Linked/Handshakes.antt =====
-- The handshake and OnRead (server/rtmp.cc): a session that has not shaken hands is in no room.
use live_streaming.Base.{
  ℕ, ◌≡◌, ◌≢◌, refl, sym, ◌∙◌, Bool, true, false, ◌==◌, none, some, Bool-cases, inl, inr, ◌⊎◌,
  if◌then◌else◌,
}
use live_streaming.Result.{Result, ok, throws, aborts, faults, exhausted}
use live_streaming.Stream.{ByteStream, Stream, open_stream, commit}
use live_streaming.Handshake.{deserialize_version}
use live_streaming.Session.{
  State, RtmpSession, Environment, undefined, pull, uninitialized, version_sent, ack_sent,
  handshake_done,
}
use live_streaming.Session.Chunks.{read_chunk}
use live_streaming.Server.World.{World}
use live_streaming.Server.Reading.{
  Reply, flush, send_s0_and_s1, send_s2, read_handshake, HandshakeStep, stays, goes_on, after_send,
  then_next, step_uninitialized, step_version_sent, step_ack_sent, store,
  on_read_in_handshake_done_state, on_read_in_ack_sent_state, on_read_in_version_sent_state,
  on_read_in_uninitialized_state, on_read,
}
use live_streaming.Server.Linked.{Visits, IsLinked, Leaves, bind-Leaves}
use live_streaming.Server.Linked.Sessions.{
  SameRole, append_output-SameRole, write-SameRole, free_session-IsLinked, no_viewer-Visits,
  update_same,
}
use live_streaming.Server.Linked.Chunks.{Linked, ReadsTamely, done-IsLinked}

-- Type undefined.
abbrev IsFree : RtmpSession → Type 0
IsFree s = s.type ≡ undefined

-- The type is undefined where the session stays, and G holds of one that goes on.
abbrev StepGives : (RtmpSession → Type 0) → HandshakeStep → Type 0
StepGives G (stays s reply) = IsFree s
StepGives G (goes_on s) = G s

abbrev StepIsFree : HandshakeStep → Type 0
StepIsFree = StepGives IsFree

abbrev IsShaken : RtmpSession → Type 0
IsShaken s = (s.type ≡ undefined) × (s.state ≡ handshake_done)

flush-IsFree :
    (env : Environment) (key : ℕ) (out : Stream (Unit {0})) (s : RtmpSession)
    → IsFree s
    → Leaves (λ r. IsFree r.0) (flush env key out s)
flush-IsFree env key out s u =
    bind-Leaves (SameRole s) (λ r. IsFree r.0) _ _ (append_output-SameRole out s)
      λ s' r. (write-SameRole env key s').type ∙ r.type ∙ u

after_send-IsFree :
    (r : Reply) (next : RtmpSession → RtmpSession)
    → Leaves (λ x. IsFree x.0) r
    → ((s : RtmpSession) → (next s).type ≡ s.type)
    → Leaves StepIsFree (after_send r next)
unfolding after_send
after_send-IsFree r next h n = bind-Leaves (λ x. IsFree x.0) StepIsFree r _ h by_sent
  where
    by_sent :
        (x : RtmpSession × Bool)
        → IsFree x.0
        → StepIsFree (if x.1 then goes_on (next x.0) else stays x.0 false)
    by_sent (s, true) u = n s ∙ u
    by_sent (s, false) u = u

step_uninitialized-IsFree :
    (env : Environment) (key : ℕ) (s : RtmpSession)
    → IsFree s
    → Leaves StepIsFree (step_uninitialized env key s)
unfolding step_uninitialized send_s0_and_s1
step_uninitialized-IsFree env key s u =
    by_version (deserialize_version s.c0 (open_stream s.read_data_buffer))
  where
    of_version :
        (version : ℕ) (bs : ByteStream)
        → Leaves StepIsFree (
            if version == 3
            then after_send
                (send_s0_and_s1 env key
                  (record s { c0 = version; read_data_buffer = (commit bs).bytes }))
                (λ s''. record s'' { state = version_sent })
            else ok (stays (record s { c0 = version; read_data_buffer = (commit bs).bytes }) false))
    of_version version bs = elim (Bool-cases (version == 3)) [
      | inl e ↦ rw e (after_send-IsFree _ _ (flush-IsFree env key _ _ u) (λ s''. refl))
      | inr e ↦ rw e u
    ]

    by_version :
        (r : Result (ℕ × ByteStream))
        → Leaves StepIsFree (elim r as (λ _. Result HandshakeStep) [
          | ok (version, bs) ↦
              if version == 3
              then after_send
                  (send_s0_and_s1 env key
                    (record s { c0 = version; read_data_buffer = (commit bs).bytes }))
                  (λ s''. record s'' { state = version_sent })
              else ok
                  (stays (record s { c0 = version; read_data_buffer = (commit bs).bytes }) false)
          | _ ↦ ok (stays s true)
        ])
    by_version (ok (version, bs)) = of_version version bs
    by_version throws = u
    by_version aborts = u
    by_version faults = u
    by_version exhausted = u

step_version_sent-IsFree :
    (env : Environment) (key : ℕ) (s : RtmpSession)
    → IsFree s
    → Leaves StepIsFree (step_version_sent env key s)
unfolding step_version_sent send_s2
step_version_sent-IsFree env key s u =
    let m = (read_handshake s.c1 s).0 in
    elim ((read_handshake s.c1 s).1)
      as (λ o. Leaves StepIsFree (elim o as (λ _. Result HandshakeStep) [
        | none ↦ ok (stays (record s { c1 = m }) true)
        | some left ↦
            after_send (send_s2 env key (record s { c1 = m; read_data_buffer = left }))
              (λ s''. record s'' { state = ack_sent })
      ])) [
        | none ↦ u
        | some left ↦ after_send-IsFree _ _ (flush-IsFree env key _ _ u) (λ s''. refl)
      ]

step_ack_sent-IsShaken : (s : RtmpSession) → IsFree s → StepGives IsShaken (step_ack_sent s)
unfolding step_ack_sent
step_ack_sent-IsShaken s u =
    let m = (read_handshake s.c2 s).0 in
    elim ((read_handshake s.c2 s).1)
      as (λ o. StepGives IsShaken (elim o as (λ _. HandshakeStep) [
        | none ↦ stays (record s { c2 = m }) true
        | some left ↦ goes_on (record s { c2 = m; read_data_buffer = left; state = handshake_done })
      ])) [ none ↦ u | some left ↦ (u, refl) ]

module _ (env : Environment) (key : ℕ) (w : World) (out : (id : ℕ) → ¬ (Visits w.manager key id))
    (l : IsLinked w) where
  free_store : (s : RtmpSession) → IsFree s → IsLinked (store key s w)
  free_store s u = free_session-IsLinked key s w out (inr u) l

  then_next-IsLinked :
      (G : RtmpSession → Type 0) (r : Result HandshakeStep)
      (next : RtmpSession → Result (World × Bool))
      → Leaves (StepGives G) r
      → ((s : RtmpSession) → G s → Leaves Linked (next s))
      → Leaves Linked (then_next key w r next)
  then_next-IsLinked G r next h n =
      bind-Leaves (StepGives G) Linked r _ h
        (elim [ stays s reply ↦ λ u. free_store s u | goes_on s ↦ λ u. n s u ])

  shaken-IsLinked :
      (s : RtmpSession)
      → IsShaken s
      → Leaves Linked (on_read_in_handshake_done_state env key s (store key s w))
  shaken-IsLinked s u =
      done-IsLinked env key s (store key s w)
        (record { there = update_same w.sessions key s key refl; done = u.1 }) (free_store s u.0)
        λ t bs e whole c bs' e' n. u.0

  ack_sent-IsLinked :
      (s : RtmpSession) → IsFree s → Leaves Linked (on_read_in_ack_sent_state env key w s)
  unfolding on_read_in_ack_sent_state
  ack_sent-IsLinked s u =
      then_next-IsLinked IsShaken (ok (step_ack_sent s)) _ (step_ack_sent-IsShaken s u)
        shaken-IsLinked

  version_sent-IsLinked :
      (s : RtmpSession) → IsFree s → Leaves Linked (on_read_in_version_sent_state env key w s)
  unfolding on_read_in_version_sent_state
  version_sent-IsLinked s u =
      then_next-IsLinked IsFree (step_version_sent env key s) (on_read_in_ack_sent_state env key w)
        (step_version_sent-IsFree env key s u) ack_sent-IsLinked

  uninitialized-IsLinked :
      (s : RtmpSession) → IsFree s → Leaves Linked (on_read_in_uninitialized_state env key w s)
  unfolding on_read_in_uninitialized_state
  uninitialized-IsLinked s u =
      then_next-IsLinked IsFree (step_uninitialized env key s)
        (on_read_in_version_sent_state env key w) (step_uninitialized-IsFree env key s u)
        version_sent-IsLinked

state_cases :
    (t : State)
    → (t ≡ handshake_done)
      ⊎ ((t ≢ handshake_done) × ((t ≡ uninitialized) ⊎ ((t ≡ version_sent) ⊎ (t ≡ ack_sent))))
state_cases uninitialized = inr ((λ e. cc), inl refl)
state_cases version_sent = inr ((λ e. cc), inr (inl refl))
state_cases ack_sent = inr ((λ e. cc), inr (inr refl))
state_cases handshake_done = inl refl

pub on_read-IsLinked :
    (env : Environment) (key : ℕ) (s : RtmpSession) (w : World)
    → w.sessions key ≡ some s
    → IsLinked w
    → ReadsTamely s (read_chunk s)
    → Leaves Linked (on_read env key s w)
unfolding on_read
on_read-IsLinked env key s w e l tame = elim (state_cases s.state) [
  | inl d ↦ rw (d, on_read) (done-IsLinked env key s w (record { there = e; done = d }) l tame)
  | inr (n, early) ↦
      let free : IsFree s = elim (l.idle key s e) [ inl d ↦ absurd (n d) | inr u ↦ u ] in
      let out = no_viewer-Visits key s w e (λ p. let q : undefined ≡ pull = sym free ∙ p in cc) l in
      elim early [
        | inl d ↦ rw (d, on_read) (uninitialized-IsLinked env key w out l s free)
        | inr (inl d) ↦ rw (d, on_read) (version_sent-IsLinked env key w out l s free)
        | inr (inr d) ↦ rw (d, on_read) (ack_sent-IsLinked env key w out l s free)
      ]
]
