-- ===== src/Media/Speaker/Draining.antt =====
-- SDL's callback alone, util/speaker.cc: it plays all that is pending.
use live_streaming.Base.{ℕ, suc, zero, ◌-◌, ◌*◌, ◌≡◌, List, [], ◌∷◌, ◌++◌, length, replicate}
use live_streaming.Result.{Result, ok, ◌>>=◌}
use live_streaming.Media.Speaker.{Speaker, AudioLibrary, sdl_audio_device_callback}
use live_streaming.Media.Speaker.Playback.{pending}

abbrev pub flatten : List (List ℕ) → List ℕ
flatten [] = []
flatten (xs ∷ xss) = xs ++ flatten xss

-- The bytes xs, and zeros up to n bytes.
abbrev pub padded : ℕ → List ℕ → List ℕ
padded n xs = xs ++ replicate (n - length xs) 0

module _ (lib : AudioLibrary) {Context : Type 0} where
  -- The streams of n calls of the callback for len bytes each.
  unfoldable pub play : ℕ → ℕ → Speaker Context → Result (List (List ℕ) × Speaker Context)
  play zero len s = ok ([], s)
  play (suc n) len s = do
    (heard, next) ← sdl_audio_device_callback lib len s
    (streams, end) ← play n len next
    ok (heard.stream ∷ streams, end)

  -- The streams have all that was pending, in order, and then zeros; nothing is left.
  pub record Drains (n len : ℕ) (s : Speaker Context) : Type 0 where
    pub streams : List (List ℕ)
    pub next : Speaker Context
    pub runs : play n len s ≡ ok (streams, next)
    pub played : flatten streams ≡ padded (n * len) (pending lib s)
    pub nothing_left : pending lib next ≡ []

  -- Bytes that are mixed onto zeros are those bytes.
  abbrev pub ZerosAreSilent : Speaker Context → Type 0
  ZerosAreSilent s =
      (xs : List ℕ)
      → lib.mix_audio_format s.desired_audio_spec.format (replicate (length xs) 0) xs ≡ xs
