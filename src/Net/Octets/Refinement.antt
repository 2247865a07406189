-- ===== src/Net/Octets/Refinement.antt =====
-- The objects of util/net/octets.h share blocks, and still behave as byte strings of their own.
use live_streaming.Base.{true, none}
use live_streaming.Net.Octets.{Heap}

no_blocks : Heap
no_blocks = record { cell = λ p. none; next = 0; freed_unlocks = true }
