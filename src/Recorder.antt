-- ===== src/Recorder.antt =====
-- recorder/context.cc and recorder/base.cc: the parameters of the recorder's inputs. Input is an input
-- that is running.
pub mod Splitting
pub mod Fields
pub mod Input
use live_streaming.Base.{
  ◌%◌, ◌^◌, ℕ, suc, zero, ◌+◌, ◌-◌, ◌*◌, Bool, true, false, List, [], ◌∷◌, ◌==◌, ltb, leb, ◌&&◌,
  ◌||◌, not, if◌then◌else◌, length, map, Option, none, some, ℤ, pos, sub_ℕ,
}
use live_streaming.Result.{Result, ok, exhausted, ◌>>=◌}

-- std::string::find and the two substrings around what it finds.
unfoldable pub cut_at : ℕ → List ℕ → List ℕ × Option (List ℕ)
cut_at sep [] = ([], none)
cut_at sep (c ∷ cs) =
    let (before, after) = cut_at sep cs in if c == sep then ([], some cs) else (c ∷ before, after)

-- The loops of Context's constructor over its flags, from `pos` on; a round takes a character or ends.
unfoldable pub split_params : ℕ → ℕ → List ℕ → Result (List (List ℕ))
unfolding cut_at
split_params zero sep text = exhausted
split_params (suc fuel) sep [] = ok []
split_params (suc fuel) sep (c ∷ cs) =
    let (item, after) = cut_at sep (c ∷ cs) in
    elim after [
      | none ↦ ok (item ∷ [])
      | some rest ↦ (do items ← split_params fuel sep rest; ok (item ∷ items))
    ]

pub record InputVideoParam : Type 0 where
  pub url : List ℕ
  pub input_w_x_h : List ℕ
  pub pix_fmt : List ℕ
  pub framerate : ℤ

-- The characters that C's isspace accepts.
abbrev pub is_space : ℕ → Bool
is_space c = c == 32 || leb 9 c && ltb c 14

abbrev pub is_decimal : ℕ → Bool
is_decimal c = leb 48 c && ltb c 58

-- What C reads of a string: up to the first null character.
unfoldable pub c_string : List ℕ → List ℕ
c_string [] = []
c_string (c ∷ cs) = let rest = c_string cs in if c == 0 then [] else c ∷ rest

unfoldable pub skip_space : List ℕ → List ℕ
skip_space [] = []
skip_space (c ∷ cs) = let rest = skip_space cs in if is_space c then rest else c ∷ cs

-- The longest prefix of characters that pass a test, and the rest.
unfoldable pub span : (ℕ → Bool) → List ℕ → List ℕ × List ℕ
span test [] = ([], [])
span test (c ∷ cs) =
    let (before, after) = span test cs in if test c then (c ∷ before, after) else ([], c ∷ cs)

-- sscanf's %s and %d: what was read and the rest of the string; `none` where sscanf stops.
unfoldable pub scan_word : List ℕ → Option (List ℕ × List ℕ)
unfolding skip_space span
scan_word text =
    let (word, rest) = span (λ c. not (is_space c)) (skip_space text) in
    if length word == 0 then none else some (word, rest)

unfoldable pub decimal_value : ℕ → List ℕ → ℕ
decimal_value n [] = n
decimal_value n (c ∷ cs) = decimal_value (n * 10 + (c - 48)) cs

unfoldable pub scan_digits : List ℕ → Option ℕ
unfolding span decimal_value
scan_digits text =
    let (digits, rest) = span is_decimal text in
    if length digits == 0 then none else some (decimal_value 0 digits)

-- The long that strtol gives, and the int that it is cut to: the low 32 bits, in two's complement.
unfoldable pub as_int : ℕ → ℤ
as_int bits = let low = bits % 2 ^ 32 in if ltb low (2 ^ 31) then pos low else sub_ℕ low (2 ^ 32)

unfoldable pub as_long : ℕ → ℕ → ℕ
as_long limit n = if ltb limit n then limit else n

-- %d, as glibc reads it: what does not fit in a long is its nearest number.
unfoldable pub scan_signed : List ℕ → Option ℤ
unfolding scan_digits as_int as_long
scan_signed [] = none
scan_signed (c ∷ cs) =
    if c == 45
    then elim (scan_digits cs) [
      | none ↦ none
      | some n ↦ some (as_int (2 ^ 64 - as_long (2 ^ 63) n))
    ]
    else elim (scan_digits (if c == 43 then cs else c ∷ cs)) [
      | none ↦ none
      | some n ↦ some (as_int (as_long (2 ^ 63 - 1) n))
    ]

unfoldable pub scan_int : List ℕ → Option ℤ
unfolding skip_space scan_signed
scan_int text = scan_signed (skip_space text)

unfoldable pub colon_to_newline : ℕ → ℕ
colon_to_newline c = if c == 58 then 10 else c

-- The call of sscanf and the test that it has read four things.
unfoldable pub scan_param : List ℕ → Option InputVideoParam
unfolding scan_word scan_int
scan_param text = elim (scan_word text) [
  | none ↦ none
  | some (url, text1) ↦ elim (scan_word text1) [
    | none ↦ none
    | some (input_w_x_h, text2) ↦ elim (scan_word text2) [
      | none ↦ none
      | some (pix_fmt, text3) ↦ elim (scan_int text3) [
        | none ↦ none
        | some framerate ↦ some (record {
          url = url;
          input_w_x_h = input_w_x_h;
          pix_fmt = pix_fmt;
          framerate = framerate;
        })
      ]
    ]
  ]
]

-- InputVideoParam's constructor; `none` where it throws.
unfoldable pub input_video_param : List ℕ → Option InputVideoParam
unfolding scan_param c_string colon_to_newline
input_video_param param =
    if leb 1024 (length param) then none else scan_param (c_string (map colon_to_newline param))

unfoldable pub parse_all : List (List ℕ) → Option (List InputVideoParam)
unfolding input_video_param
parse_all [] = some []
parse_all (param ∷ params) = elim (input_video_param param) [
  | none ↦ none
  | some p ↦ elim (parse_all params) [ none ↦ none | some ps ↦ some (p ∷ ps) ]
]

-- Two inputs of video are wanted, and one of audio.
unfoldable pub two_of : Option (List InputVideoParam) → Option (InputVideoParam × InputVideoParam)
two_of (some (main ∷ minor ∷ [])) = some (main, minor)
two_of _ = none

unfoldable pub one_of : List (List ℕ) → Option (List ℕ)
one_of (audio ∷ []) = some audio
one_of _ = none

-- What the constructor of Context makes of its flags; `none` where it throws. The commas and the
-- semicolons are those of the code.
unfoldable pub context_params :
    List ℕ → List ℕ → Result (Option ((InputVideoParam × InputVideoParam) × List ℕ))
unfolding split_params parse_all two_of one_of
context_params input_video input_audio = do
  videos ← split_params (suc (length input_video)) 44 input_video
  audios ← split_params (suc (length input_audio)) 59 input_audio
  ok (elim (two_of (parse_all videos)) [
    | none ↦ none
    | some params ↦ elim (one_of audios) [ none ↦ none | some audio ↦ some (params, audio) ]
  ])
