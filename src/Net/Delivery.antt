-- ===== src/Net/Delivery.antt =====
-- Two sessions of util/net that are connected: one sends, and the callback of the other gets.
use live_streaming.Base.{
  ℕ, ◌^◌, ◌<◌, ◌≡◌, refl, sym, ap, ◌∙◌, Bool, true, false, List, [], ◌++◌, length, inl, inr, All,
  append_assoc, Bool-cases,
}
use live_streaming.Result.{ok}
use live_streaming.Net.Sender.{Sender}
use live_streaming.Net.Sender.Steps.{Reach, unsent}
use live_streaming.Net.Sender.Order.{Reach-in_order}
use live_streaming.Net.Receiver.{Readings, exchanger_reads}
use live_streaming.Net.Receiver.Splitting.{encodes}
use live_streaming.Net.Receiver.Reassembly.{Codec, IsReady, all_read, exchanger_reads-encodes}

module _ {Protocol : Type 0} (c : Codec Protocol) (callback : Protocol → Bool)
    (returns : (p : Protocol) → callback p ≡ true) where
  -- Whatever protocols were appended to a session that sends, however its writing is interrupted, and
  -- however the bytes arrive, of which some may be on the way: the other session's callback gets
  -- a beginning of these protocols, in their order, and nothing else; and all of them, once no write
  -- has failed and no byte is unsent or on the way. All bytes are fewer than 2^32, every read finds
  -- some, and the callback does not throw.
  pub exchanger_reads-sent :
      (ps : List Protocol) (b : Bool) (s : Sender) (rs : List Readings) (way : List ℕ)
      → Reach (encodes c.encode ps) b s
      → all_read rs ++ way ≡ s.sent
      → All c.Fits ps
      → All IsReady rs
      → length (encodes c.encode ps) < 2 ^ 32
      → (come to_come : List Protocol) × (q : List ℕ) × (ps ≡ come ++ to_come)
        × (exchanger_reads c.deserialize callback rs
              (record { read_data = []; received = []; closed = false })
            ≡ ok (record { read_data = q; received = come; closed = false }))
        × (b ≡ false → way ≡ [] → unsent s ≡ [] → to_come ≡ [])
  exchanger_reads-sent ps b s rs way reach e f ready l =
      let ((rest, part), whole, once) = Reach-in_order (encodes c.encode ps) b s reach in
      let sent : (later : List ℕ)
          → s.sent ++ later ≡ encodes c.encode ps
          → all_read rs ++ (way ++ later) ≡ encodes c.encode ps =
        λ later m. sym (append_assoc (all_read rs) way later) ∙ ap (λ zs. zs ++ later) e ∙ m in
      elim (Bool-cases b) [
        | inl failed ↦
            let (come, to_come, q, all, runs, left, short, done) =
              exchanger_reads-encodes c callback returns rs ps (way ++ rest) (sent rest part) f
                ready l in
            (
              come,
              to_come,
              q,
              all,
              runs,
              λ fine no_way no_more. let z : true ≡ false = sym failed ∙ fine in cc,
            )
        | inr fine ↦
            let (come, to_come, q, all, runs, left, short, done) =
              exchanger_reads-encodes c callback returns rs ps (way ++ unsent s)
                (sent (unsent s) (whole fine)) f ready l in
            (come, to_come, q, all, runs, λ fine no_way no_more. done (rw (no_way, no_more) refl))
      ]
