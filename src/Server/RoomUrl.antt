-- ===== src/Server/RoomUrl.antt =====
-- The room id that the "connect" command of server/rtmp.cc takes from tcUrl.
use live_streaming.Base.{
  ℕ, ◌-◌, ◌≡◌, refl, subst, List, [], ◌∷◌, ◌++◌, length, drop, drop-length_append, length-append,
  if◌then◌else◌, arith, Bool-cases, inl, inr,
}
use live_streaming.Server.Commands.{is_digit, room_digits, room_of_url}

last-drop : (url : List ℕ) (c : ℕ) → drop (length (url ++ c ∷ []) - 1) (url ++ c ∷ []) ≡ c ∷ []
last-drop url c =
    let n : length url ≡ length (url ++ c ∷ []) - 1 = omega (arith, length-append url (c ∷ [])) in
    subst (λ (k : ℕ). drop k (url ++ c ∷ []) ≡ c ∷ []) n (drop-length_append url (c ∷ []))

-- The room id is the value of the last character of the URL if that is a digit, and 0 if it is not,
-- whatever comes before it.
pub room_of_url-last :
    (url : List ℕ) (c : ℕ) → room_of_url (url ++ c ∷ []) ≡ (if is_digit c then c - b'0' else 0)
unfolding room_of_url room_digits
room_of_url-last url c =
    rw (last-drop url c)
      (elim (Bool-cases (is_digit c)) [ inl e ↦ rw e (omega arith) | inr e ↦ rw e refl ])
