-- ===== src/Media/Muxer/Choice.antt =====
-- The formats that InitStream of util/muxer.cc chooses.
use live_streaming.Base.{
  ℕ, ℤ, suc, zero, ◌+◌, ◌≡◌, refl, sym, subst, ap, ◌∙◌, ◌⊎◌, inl, inr, Bool, true, false,
  Bool-cases, List, [], ◌∷◌, ◌==◌, ◌==ℤ◌, if◌then◌else◌, Option, none, some, arith,
}
use live_streaming.Media.{
  SampleFormat, u8, s16, s32, flt, dbl, u8p, s16p, s32p, fltp, dblp, s64, s64p, sample_fmt_none,
  other_format, format_code, pix_fmt_yuv420p,
}
use live_streaming.Media.Muxer.{
  MuxerParam, Codec, pick, choose, pick_pix_fmt, choose_pix_fmt, same_format, audio_param,
  video_param,
}

unfoldable format_of : ℕ → SampleFormat
format_of zero = sample_fmt_none
format_of (suc zero) = u8
format_of (suc (suc zero)) = s16
format_of (suc (suc (suc zero))) = s32
format_of (suc (suc (suc (suc zero)))) = flt
format_of (suc (suc (suc (suc (suc zero))))) = dbl
format_of (suc (suc (suc (suc (suc (suc zero)))))) = u8p
format_of (suc (suc (suc (suc (suc (suc (suc zero))))))) = s16p
format_of (suc (suc (suc (suc (suc (suc (suc (suc zero)))))))) = s32p
format_of (suc (suc (suc (suc (suc (suc (suc (suc (suc zero))))))))) = fltp
format_of (suc (suc (suc (suc (suc (suc (suc (suc (suc (suc zero)))))))))) = dblp
format_of (suc (suc (suc (suc (suc (suc (suc (suc (suc (suc (suc zero))))))))))) = s64
format_of (suc (suc (suc (suc (suc (suc (suc (suc (suc (suc (suc (suc zero)))))))))))) = s64p
format_of (suc (suc (suc (suc (suc (suc (suc (suc (suc (suc (suc (suc (suc n))))))))))))) =
    other_format n

format_of-format_code : (f : SampleFormat) → format_of (format_code f) ≡ f
unfolding format_of format_code
format_of-format_code sample_fmt_none = refl
format_of-format_code u8 = refl
format_of-format_code s16 = refl
format_of-format_code s32 = refl
format_of-format_code flt = refl
format_of-format_code dbl = refl
format_of-format_code u8p = refl
format_of-format_code s16p = refl
format_of-format_code s32p = refl
format_of-format_code fltp = refl
format_of-format_code dblp = refl
format_of-format_code s64 = refl
format_of-format_code s64p = refl
format_of-format_code (other_format n) =
    let e : 13 + n
        ≡ suc (suc (suc (suc (suc (suc (suc (suc (suc (suc (suc (suc (suc (n))))))))))))) =
      omega arith in
    ap format_of e

-- A test that says whether two values are the same.
record IsEquality {ℓ} {A : Type ℓ} (eq : A → A → Bool) : Type ℓ where
  sound : (a b : A) → eq a b ≡ true → a ≡ b
  complete : (a : A) → eq a a ≡ true

same_format-IsEquality : IsEquality same_format
same_format-IsEquality = record {
  sound = λ a b e.
      let same : format_code a ≡ format_code b = ground arith in
      sym (format_of-format_code a) ∙ ap format_of same ∙ format_of-format_code b;
  complete = λ a. ground arith;
}

==_IsEquality : IsEquality ◌==◌
==_IsEquality = record { sound = λ a b e. ground arith; complete = λ a. ground arith }

==ℤ_IsEquality : IsEquality ◌==ℤ◌
==ℤ_IsEquality = record { sound = λ a b e. ground arith; complete = λ a. ground arith }

module _ {ℓ} {A : Type ℓ} (eq : A → A → Bool) where
  -- Whether the value is in the list.
  abbrev pub is_in : A → List A → Bool
  is_in a [] = false
  is_in a (x ∷ xs) = if eq x a then true else is_in a xs

  -- What a choice is to be, from a list with this first entry: the wanted value if the list has it,
  -- else the first entry.
  pub record IsChoice (wanted first : A) (rest : List A) (chosen : A) : Type ℓ where
    pub supported : is_in chosen (first ∷ rest) ≡ true
    pub kept : is_in wanted (first ∷ rest) ≡ true → chosen ≡ wanted
    pub replaced : is_in wanted (first ∷ rest) ≡ false → chosen ≡ first

  -- Without a list any value will do.
  abbrev pub IsChosen : A → Option (List A) → A → Type ℓ
  IsChosen wanted none chosen = chosen ≡ wanted
  IsChosen wanted (some []) chosen = Unit
  IsChosen wanted (some (x ∷ xs)) chosen = IsChoice wanted x xs chosen

module _ {ℓ} {A : Type ℓ} (eq : A → A → Bool) (i : IsEquality eq) where
  pick-found :
      (wanted current : A) (xs : List A)
      → is_in eq wanted xs ≡ true
      → pick eq wanted current xs ≡ wanted
  unfolding pick
  pick-found wanted current [] h = ground arith
  pick-found wanted current (x ∷ xs) h = elim (Bool-cases (eq x wanted)) [
    | inl e ↦ rw e (i.sound x wanted e)
    | inr e ↦
        let found : is_in eq wanted xs ≡ true = ground arith in
        rw e (pick-found wanted current xs found)
  ]

  pick-missing :
      (wanted current : A) (xs : List A)
      → is_in eq wanted xs ≡ false
      → pick eq wanted current xs ≡ current
  unfolding pick
  pick-missing wanted current [] h = refl
  pick-missing wanted current (x ∷ xs) h = elim (Bool-cases (eq x wanted)) [
    | inl e ↦ absurd (ground arith)
    | inr e ↦
        let missing : is_in eq wanted xs ≡ false = ground arith in
        rw e (pick-missing wanted current xs missing)
  ]

  choose-IsChosen :
      (terminator wanted : A) (o : Option (List A))
      → IsChosen eq wanted o (choose eq terminator wanted o)
  unfolding choose
  choose-IsChosen terminator wanted none = refl
  choose-IsChosen terminator wanted (some []) = tt
  choose-IsChosen terminator wanted (some (x ∷ xs)) = elim (Bool-cases (is_in eq wanted (x ∷ xs))) [
    | inl h ↦
        let e = pick-found wanted x (x ∷ xs) h in
        record {
          supported = subst (λ (a : A). is_in eq a (x ∷ xs) ≡ true) (sym e) h;
          kept = λ k. e;
          replaced = λ k. ground arith;
        }
    | inr h ↦
        let e = pick-missing wanted x (x ∷ xs) h in
        record {
          supported =
              subst (λ (a : A). is_in eq a (x ∷ xs) ≡ true) (sym e) (rw (i.complete x) refl);
          kept = λ k. ground arith;
          replaced = λ k. e;
        }
  ]

-- InitStream's audio parameters: where the codec has a list, the sample format, the sample rate and
-- the channel layout are in it; each is the one that was asked for if the codec has that, and else
-- the first of its list. Without a list they are those asked for.
audio_param-IsChosen :
    (codec : Codec) (mp : MuxerParam)
    → let chosen = audio_param codec mp in
      IsChosen same_format mp.audio_sample_format codec.sample_fmts chosen.audio_sample_format
      × IsChosen ◌==◌ mp.audio_sample_rate codec.supported_samplerates chosen.audio_sample_rate
      × IsChosen ◌==◌ mp.audio_channel_layout codec.channel_layouts chosen.audio_channel_layout
unfolding audio_param
audio_param-IsChosen codec mp = (
  choose-IsChosen same_format same_format-IsEquality sample_fmt_none mp.audio_sample_format
      codec.sample_fmts,
  choose-IsChosen ◌==◌ ==_IsEquality 0 mp.audio_sample_rate codec.supported_samplerates,
  choose-IsChosen ◌==◌ ==_IsEquality 0 mp.audio_channel_layout codec.channel_layouts,
)

abbrev has_pix_fmt : ℤ → List ℤ → Bool
has_pix_fmt fmt xs = is_in ◌==ℤ◌ fmt xs

-- The pixel format: the wanted one if the codec has it, else YUV420P if it has that, else its first.
pub record IsPixChoice (wanted first : ℤ) (rest : List ℤ) (chosen : ℤ) : Type 0 where
  pub kept : has_pix_fmt wanted (first ∷ rest) ≡ true → chosen ≡ wanted
  pub planar :
      has_pix_fmt wanted (first ∷ rest) ≡ false
      → has_pix_fmt pix_fmt_yuv420p (first ∷ rest) ≡ true
      → chosen ≡ pix_fmt_yuv420p
  pub replaced :
      has_pix_fmt wanted (first ∷ rest) ≡ false
      → has_pix_fmt pix_fmt_yuv420p (first ∷ rest) ≡ false
      → chosen ≡ first

pix-found :
    (wanted : ℤ) (xs : List ℤ) (current : ℤ)
    → has_pix_fmt wanted xs ≡ true
    → pick_pix_fmt wanted current xs ≡ wanted
unfolding pick_pix_fmt
pix-found wanted [] current h = ground arith
pix-found wanted (x ∷ xs) current h = elim (Bool-cases (x ==ℤ wanted)) [
  | inl e ↦ rw e refl
  | inr e ↦ let found = rw e at h in rw e (pix-found wanted xs _ found)
]

pix-planar :
    (wanted current : ℤ) (xs : List ℤ)
    → has_pix_fmt wanted xs ≡ false
    → (current ≡ pix_fmt_yuv420p) ⊎ (has_pix_fmt pix_fmt_yuv420p xs ≡ true)
    → pick_pix_fmt wanted current xs ≡ pix_fmt_yuv420p
unfolding pick_pix_fmt
pix-planar wanted current [] h (inl k) = k
pix-planar wanted current [] h (inr k) = ground arith
pix-planar wanted current (x ∷ xs) h k = elim (Bool-cases (x ==ℤ wanted)) [
  | inl e ↦ absurd (let no = rw e at h in ground arith)
  | inr e ↦
      let missing = rw e at h in
      rw e (elim (Bool-cases (x ==ℤ pix_fmt_yuv420p)) [
        | inl f ↦ rw f (pix-planar wanted pix_fmt_yuv420p xs missing (inl refl))
        | inr f ↦ rw f (
            pix-planar wanted current xs missing
              (elim k [ inl c ↦ inl c | inr d ↦ inr (let d' = rw f at d in d') ]))
      ])
]

pix-missing :
    (wanted current : ℤ) (xs : List ℤ)
    → has_pix_fmt wanted xs ≡ false
    → has_pix_fmt pix_fmt_yuv420p xs ≡ false
    → pick_pix_fmt wanted current xs ≡ current
unfolding pick_pix_fmt
pix-missing wanted current [] h k = refl
pix-missing wanted current (x ∷ xs) h k = elim (Bool-cases (x ==ℤ wanted)) [
  | inl e ↦ absurd (let no = rw e at h in ground arith)
  | inr e ↦
      let missing = rw e at h in
      rw e (elim (Bool-cases (x ==ℤ pix_fmt_yuv420p)) [
        | inl f ↦ absurd (let no = rw f at k in ground arith)
        | inr f ↦ let missing' = rw f at k in rw f (pix-missing wanted current xs missing missing')
      ])
]

-- InitStream's pixel format, for a codec that has a list: the one asked for if it is in the list, else
-- YUV420P if that is, and else the first of the list.
video_param-IsPixChoice :
    (codec : Codec) (mp : MuxerParam) (first : ℤ) (rest : List ℤ)
    → codec.pix_fmts ≡ some (first ∷ rest)
    → IsPixChoice mp.video_pix_fmt first rest (video_param codec mp).video_pix_fmt
unfolding video_param choose_pix_fmt
video_param-IsPixChoice codec mp first rest e = rw e (record {
  kept = pix-found mp.video_pix_fmt (first ∷ rest) first;
  planar = λ h k. pix-planar mp.video_pix_fmt first (first ∷ rest) h (inr k);
  replaced = pix-missing mp.video_pix_fmt first (first ∷ rest);
})
