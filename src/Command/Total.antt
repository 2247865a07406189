-- ===== src/Command/Total.antt =====
-- Reading objects and command messages (server/command_message.cc) from bytes that may be anything.
use live_streaming.Base.{ℕ, zero, suc, ◌≤◌, ◌<◌, ◌==◌, ◌||◌, Bool-cases, inl, inr, arith, []}
use live_streaming.Stream.{ByteStream, Stream, ◌>>=◌, pure, pop, remain, discard}
use live_streaming.Stream.Shrinking.{
  Ends, Ends-weaken, pure-Ends, throws-Ends, Ends-if, bind-Ends, pop-Ends, pop_raw-Ends,
  discard-Ends,
}
use live_streaming.Command.Marker
use live_streaming.Command.{
  Dict, object, nil, plain, marker, insert_entry, pop_string, deserialize_value, deserialize_object,
  deserialize_entries, read_object, deserialize_command,
}

pub pop_string-Ends : (bs : ByteStream) → Ends 2 pop_string bs
unfolding pop_string
pop_string-Ends bs =
    bind-Ends 0 _ (pop-Ends 2 bs) (λ n bs' h. Ends-weaken (omega arith) (pop_raw-Ends n bs'))

-- One value, given that the dictionary reader ends wherever it may be called.
deserialize_value-Ends :
    (m : ℕ) (entries : Stream Dict) (bs : ByteStream)
    → ((bs' : ByteStream) → remain bs' ≤ remain bs → Ends 0 entries bs')
    → Ends 0 (deserialize_value m entries) bs
unfolding deserialize_value
deserialize_value-Ends m entries bs h = Ends-if (m == Marker.double) (number 8) (
    Ends-if (m == Marker.boolean) (number 1) (
      Ends-if (m == Marker.string) text (
        Ends-if (m == Marker.ecma_array) array (
          Ends-if (m == Marker.object) (dict bs (omega arith))
            (Ends-if (m == Marker.null_type || m == Marker.end) (pure-Ends _ bs) rest)))))
  where
    number : (size : ℕ) → Ends 0 (pop size >>= λ n. pure (object m n [] nil)) bs
    number size =
        Ends-weaken (omega arith) (bind-Ends 0 _ (pop-Ends size bs) (λ n bs' e. pure-Ends _ bs'))

    text : Ends 0 (pop_string >>= λ s. pure (object m 0 s nil)) bs
    text =
        Ends-weaken (omega arith) (bind-Ends 0 _ (pop_string-Ends bs) (λ n bs' e. pure-Ends _ bs'))

    dict :
        (bs' : ByteStream)
        → remain bs' ≤ remain bs
        → Ends 0 (entries >>= λ d. pure (object m 0 [] d)) bs'
    dict bs' e = bind-Ends 0 _ (h bs' e) (λ d bs'' e'. pure-Ends _ bs'')

    array : Ends 0 (pop 4 >>= λ reserved. entries >>= λ d. pure (object m 0 [] d)) bs
    array =
        Ends-weaken (omega arith)
          (bind-Ends 0 _ (pop-Ends 4 bs) (λ n bs' e. dict bs' (omega arith)))

    rest : Ends 0 (λ bs'. (discard (remain bs') >>= λ _. pure (plain m)) bs') bs
    rest = record {
      run =
          (bind-Ends 0 (λ _. pure (plain m)) (discard-Ends (remain bs) bs)
            (λ d bs' e. pure-Ends _ bs')).run;
    }

mutual
  unfolding deserialize_object

  deserialize_object-Ends :
      (fuel : ℕ) (bs : ByteStream) → remain bs < fuel → Ends 0 (deserialize_object fuel) bs
  deserialize_object-Ends zero bs h = absurd (omega arith)
  deserialize_object-Ends (suc fuel) bs h = elim (Bool-cases (remain bs == 0)) [
    | inl e ↦ record { run = rw e (pure-Ends (plain Marker.uninit) bs).run }
    | inr e ↦
        let read =
          bind-Ends 0 (λ m. deserialize_value m (deserialize_entries fuel nil)) (pop-Ends 1 bs)
            (λ m bs' l.
              deserialize_value-Ends m (deserialize_entries fuel nil) bs'
                (λ bs'' l'. deserialize_entries-Ends fuel nil bs'' (omega arith))) in
        record { run = rw e (Ends-weaken (omega arith) read).run }
  ]

  deserialize_entries-Ends :
      (fuel : ℕ) (d : Dict) (bs : ByteStream)
      → remain bs < fuel
      → Ends 0 (deserialize_entries fuel d) bs
  deserialize_entries-Ends zero d bs h = absurd (omega arith)
  deserialize_entries-Ends (suc fuel) d bs h = Ends-weaken (omega arith) (
      bind-Ends 0 _ (pop_string-Ends bs) (λ name bs' l.
        bind-Ends 0 _ (deserialize_object-Ends fuel bs' (omega arith)) (λ value bs'' l'.
          Ends-if (marker value == Marker.end) (pure-Ends d bs'') (
            Ends-if (marker value == Marker.uninit) (throws-Ends 0 bs'')
              (deserialize_entries-Ends fuel (insert_entry name value d) bs'' (omega arith))))))

-- Reading an object returns or throws, whatever the bytes: it neither runs out of fuel nor reads
-- out of bounds, and it never moves the cursor back.
pub read_object-Ends : (bs : ByteStream) → Ends 0 read_object bs
unfolding read_object
read_object-Ends bs = record {
  run = (deserialize_object-Ends (suc (remain bs)) bs (omega arith)).run;
}

-- Whatever the bytes, reading a command message returns, having taken at least twelve bytes, or
-- throws: it neither runs out of fuel nor reads out of bounds.
pub deserialize_command-Ends : (bs : ByteStream) → Ends 12 deserialize_command bs
unfolding deserialize_command
deserialize_command-Ends bs = bind-Ends 11 _ (pop-Ends 1 bs) λ a bs1 _.
    bind-Ends 9 _ (pop_string-Ends bs1) λ b bs2 _. bind-Ends 8 _ (pop-Ends 1 bs2) λ c bs3 _.
      bind-Ends 0 _ (pop-Ends 8 bs3) λ d bs4 _. bind-Ends 0 _ (read_object-Ends bs4) λ o1 bs5 _.
        bind-Ends 0 _ (read_object-Ends bs5) λ o2 bs6 _.
          bind-Ends 0 _ (read_object-Ends bs6) λ o3 bs7 _.
            bind-Ends 0 _ (read_object-Ends bs7) λ o4 bs8 _.
              bind-Ends 0 _ (read_object-Ends bs8) λ o5 bs9 _.
                bind-Ends 0 _ (read_object-Ends bs9) λ o6 bs10 _.
                  bind-Ends 0 _ (read_object-Ends bs10)
                    λ o7 bs11 _. bind-Ends 0 _ (read_object-Ends bs11) λ o8 bs12 _. pure-Ends _ bs12
