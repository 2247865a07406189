-- ===== src/Net/Sender.antt =====
-- util/net/session.cpp: the queue of what a session of util/net sends, and the flags by which the
-- event loop, the callers and the writing task agree on who writes. Each function is one step, between
-- whose locks no other thread is let in; the thread pool runs one writing task at a time.
pub mod Steps
pub mod Order
use live_streaming.Base.{
  ℕ, ◌+◌, Bool, true, false, ◌==◌, ◌&&◌, List, [], ◌∷◌, ◌++◌, length, take, drop, Option, none,
  some, if◌then◌else◌,
}

-- EVENT_FLAG.
pub data Flag : Type 0 where
  read_access read_pending write_access write_ready write_pending close_ready : Flag

abbrev pub bit : Flag → ℕ
bit read_access = 1
bit read_pending = 2
bit write_access = 4
bit write_ready = 8
bit write_pending = 16
bit close_ready = 32

-- A mask is the list of its flags, and event_flag a function.
abbrev pub has : List Flag → Flag → Bool
has [] f = false
has (g ∷ gs) f = if bit g == bit f then true else has gs f

abbrev pub Flags : Type 0
Flags = Flag → Bool

abbrev pub agree : Bool → Bool → Bool
agree true b = b
agree false true = false
agree false false = true

-- (event_flag & test) == except, where `except` is a part of `test`.
unfoldable pub matches : List Flag → List Flag → Flags → Bool
matches [] except flags = true
matches (f ∷ fs) except flags = agree (has except f) (flags f) && matches fs except flags

unfoldable pub set_flags : List Flag → Flags → Flags
set_flags fs flags f = if has fs f then true else flags f

unfoldable pub clear_flags : List Flag → Flags → Flags
clear_flags fs flags f = if has fs f then false else flags f

-- TestAndModifyEventFlag; none where it returns false.
unfoldable pub test_and_modify :
    List Flag → List Flag → List Flag → List Flag → Flags → Option Flags
unfolding matches set_flags clear_flags
test_and_modify test except set clear flags =
    if matches test except flags then some (clear_flags clear (set_flags set flags)) else none

-- What ExchangerWriteFunc does next: nothing, as no task runs; swap the lists; write; or set a flag.
pub data Phase : Type 0 where
  idle entered looping : Phase
  leaving : Flag → Phase

-- A session with the list that ExchangerWriteFunc holds while it runs, the tasks that wait for the
-- thread pool, how often disconnect_callback was called, and the bytes that the socket has taken.
pub record Sender : Type 0 where
  pub event_flag : Flags
  pub send_data_list : List (List ℕ)
  pub tmp_send_data_list : List (List ℕ)
  pub cursor_of_first_send_data : ℕ
  pub phase : Phase
  pub tasks : ℕ
  pub disconnects : ℕ
  pub sent : List ℕ

abbrev pub new_sender : Sender
new_sender = record {
  event_flag = λ f. false;
  send_data_list = [];
  tmp_send_data_list = [];
  cursor_of_first_send_data = 0;
  phase = idle;
  tasks = 0;
  disconnects = 0;
  sent = [];
}

unfoldable pub set_event_flag : Flag → Sender → Sender
unfolding set_flags
set_event_flag f s = record s { event_flag = set_flags (f ∷ []) s.event_flag }

unfoldable pub close : Sender → Sender
unfolding test_and_modify
close s = elim (test_and_modify (close_ready ∷ []) [] (close_ready ∷ []) [] s.event_flag) [
  | none ↦ s
  | some flags ↦ record s { event_flag = flags; disconnects = s.disconnects + 1 }
]

-- TryAddWriteTask, where AddTask takes the task or not.
unfoldable pub try_add_write_task : Bool → Sender → Sender
unfolding test_and_modify clear_flags
try_add_write_task takes s =
    elim (test_and_modify (write_access ∷ write_pending ∷ write_ready ∷ [])
      (write_access ∷ write_ready ∷ []) (write_pending ∷ []) [] s.event_flag) [
        | none ↦ s
        | some flags ↦
            if takes
            then record s { event_flag = flags; tasks = s.tasks + 1 }
            else record s { event_flag = clear_flags (write_pending ∷ []) flags }
      ]

-- AppendSendData puts the data in the list after WRITE_READY is set, and before it tries to add a
-- task.
unfoldable pub append_send_data : List ℕ → Sender → Sender
append_send_data octets s = record s { send_data_list = s.send_data_list ++ octets ∷ [] }

-- A task begins: Write tests the flags.
unfoldable pub write_begins : ℕ → Sender → Sender
unfolding test_and_modify
write_begins tasks s =
    elim (test_and_modify (close_ready ∷ write_access ∷ write_ready ∷ write_pending ∷ [])
      (write_access ∷ write_ready ∷ write_pending ∷ []) [] (write_ready ∷ write_pending ∷ [])
      s.event_flag) [
        | none ↦ record s { tasks = tasks }
        | some flags ↦ record s { event_flag = flags; tasks = tasks; phase = entered }
      ]

unfoldable pub swap_lists : Sender → Sender
swap_lists s = record s {
  tmp_send_data_list = s.send_data_list;
  send_data_list = [];
  phase = looping;
}

-- write takes `count` bytes of the front.
unfoldable pub write_takes : ℕ → List ℕ → List (List ℕ) → Sender → Sender
write_takes count front rest s =
    let cursor = s.cursor_of_first_send_data in
    let done = s.sent ++ take count (drop cursor front) in
    if cursor + count == length front
    then record s { tmp_send_data_list = rest; cursor_of_first_send_data = 0; sent = done }
    else record s { cursor_of_first_send_data = cursor + count; sent = done }

-- The loop ends, with all written or at EAGAIN: what is left goes back to the front of the list.
unfoldable pub put_back : List (List ℕ) → Sender → Sender
put_back [] s = record s { phase = leaving write_access }
put_back (d ∷ ds) s = record s {
  send_data_list = (d ∷ ds) ++ s.send_data_list;
  tmp_send_data_list = [];
  phase = leaving write_ready;
}

unfoldable pub write_ends : Sender → Sender
unfolding put_back
write_ends s = put_back s.tmp_send_data_list s

unfoldable pub write_leaves : Flag → Sender → Sender
unfolding set_event_flag
write_leaves f s = record (set_event_flag f s) { phase = idle }

-- The loop ends with another error, and the list is destroyed.
unfoldable pub write_fails : Sender → Sender
unfolding close
write_fails s = record (close s) { tmp_send_data_list = []; phase = idle }
