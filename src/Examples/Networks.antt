-- ===== src/Examples/Networks.antt =====
-- Octets that share a block, and a copy that is changed.
use live_streaming.Base.{List, [], ◌∷◌}
use live_streaming.Net.Octets.{
  Rep, Call, construct, construct_from, copy, assign, destroy, edits, insert, erase,
}

abbrev used : List Call
used =
    construct_from (1 ∷ 2 ∷ 3 ∷ [])
    ∷ copy 0
    ∷ copy 1
    ∷ edits 1 (insert 1 (9 ∷ []))
    ∷ construct
    ∷ assign 3 1
    ∷ edits 3 (erase 0 2)
    ∷ destroy 2
    ∷ []

abbrev shared : List Call
shared = construct_from (1 ∷ 2 ∷ 3 ∷ []) ∷ copy 0 ∷ copy 1 ∷ destroy 0 ∷ []

abbrev block : Rep
block = record { cap = 3; ref = 2; bytes = 1 ∷ 2 ∷ 3 ∷ [] }
