-- ===== src/Examples/Sending.antt =====
-- A session of util/net that sends a part of what it was given, and more is given to it meanwhile.
use live_streaming.Base.{ℕ, List, [], ◌∷◌, ◌++◌, ◌≡◌, refl, true, false, arith, if◌then◌else◌}
use live_streaming.Result.{ok}
use live_streaming.Stream.{be_bytes}
use live_streaming.Net.Stream.{pop_bytes}
use live_streaming.Net.Receiver.{Readings, exchanger_reads}
use live_streaming.Net.Delivery.{exchanger_reads-sent}
use live_streaming.Examples.Protocols.{numbers}
use live_streaming.Net.Sender.{
  Sender, new_sender, write_access, write_ready, close_ready, set_event_flag, close,
  try_add_write_task, append_send_data, write_begins, swap_lists, write_takes, write_ends, put_back,
  write_leaves, test_and_modify, matches, set_flags, clear_flags,
}
use live_streaming.Net.Sender.Steps.{
  Reach, start, sets, appends, tries, begins, swaps, writes, ends, leaves, unsent,
}
use live_streaming.Net.Sender.Order.{Reach-in_order}

abbrev asked : Sender
asked = try_add_write_task true (
    append_send_data (1 ∷ 2 ∷ 3 ∷ [])
      (set_event_flag write_ready (set_event_flag write_access new_sender)))

abbrev stopped : Sender
stopped = write_leaves write_ready (
    write_ends (
      append_send_data (4 ∷ [])
        (write_takes 2 (1 ∷ 2 ∷ 3 ∷ []) [] (swap_lists (write_begins 0 asked)))))

stopped-Reach : Reach (1 ∷ 2 ∷ 3 ∷ 4 ∷ []) false stopped
unfolding set_event_flag close try_add_write_task append_send_data write_begins swap_lists
    write_takes write_ends put_back write_leaves test_and_modify matches set_flags clear_flags
stopped-Reach = leaves write_ready refl (
    ends refl (
      appends (4 ∷ []) (omega arith) (
        writes 2 (1 ∷ 2 ∷ 3 ∷ []) [] refl refl (omega arith) (omega arith) (
          swaps refl (
            begins 0 refl refl (
              tries true (
                appends (1 ∷ 2 ∷ 3 ∷ []) (omega arith) (
                  sets write_ready (λ e. omega (arith, e))
                    (sets write_access (λ e. omega (arith, e)) start)))))))))

Reach-in_order_example :
    ((rest : List ℕ) × (stopped.sent ++ rest ≡ 1 ∷ 2 ∷ 3 ∷ 4 ∷ []))
    × (false ≡ false → stopped.sent ++ unsent stopped ≡ 1 ∷ 2 ∷ 3 ∷ 4 ∷ [])
    × (stopped.disconnects ≡ (if stopped.event_flag close_ready then 1 else 0))
Reach-in_order_example = Reach-in_order (1 ∷ 2 ∷ 3 ∷ 4 ∷ []) false stopped stopped-Reach

abbrev one_byte : List Readings
one_byte = record { reads = (1 ∷ []) ∷ []; again = true } ∷ []

exchanger_reads-sent_example :
    (come to_come : List ℕ) × (q : List ℕ) × (258 ∷ 772 ∷ [] ≡ come ++ to_come)
    × (exchanger_reads
          (pop_bytes 2)
          (λ p. true)
          one_byte
          (record { read_data = []; received = []; closed = false })
        ≡ ok (record { read_data = q; received = come; closed = false }))
    × (false ≡ false → ◌≡◌ {A = List ℕ} (2 ∷ []) [] → unsent stopped ≡ [] → to_come ≡ [])
unfolding be_bytes set_event_flag close try_add_write_task append_send_data write_begins swap_lists
    write_takes write_ends put_back write_leaves test_and_modify matches set_flags clear_flags
exchanger_reads-sent_example =
    exchanger_reads-sent numbers (λ p. true) (λ p. refl) (258 ∷ 772 ∷ []) false stopped one_byte
      (2 ∷ []) stopped-Reach refl (omega arith, (omega arith, tt)) ((refl, omega arith), tt)
      (omega arith)
