-- ===== src/Recorder/Fields.antt =====
-- A video input's parameter, recorder/base.cc, InputVideoParam: what its constructor reads.
use native.Mathlib.Nat.{mod-eq_of_lt}
use live_streaming.Base.{
  ℕ, ◌<◌, ◌-◌, ◌%◌, ◌^◌, ltb, ◌≡◌, refl, ap, ◌∙◌, Bool, true, false, List, [], ◌∷◌, ◌++◌, ◌==◌, leb,
  ◌&&◌, not, length, map, some, pos, arith,
}
use live_streaming.Recorder.{
  is_space, is_decimal, c_string, skip_space, span, scan_word, decimal_value, scan_digits,
  scan_signed, scan_int, as_int, as_long, colon_to_newline, scan_param, input_video_param,
}

-- A character that is no space, no colon and not null.
abbrev is_plain : ℕ → Bool
is_plain c = not (is_space c) && not (c == 58) && not (c == 0)

abbrev pub ArePlain : List ℕ → Type 0
ArePlain [] = Unit
ArePlain (c ∷ cs) = (is_plain c ≡ true) × ArePlain cs

abbrev pub AreDecimal : List ℕ → Type 0
AreDecimal [] = Unit
AreDecimal (c ∷ cs) = (is_decimal c ≡ true) × AreDecimal cs

-- The string that sscanf gets, for the fields' rest.
abbrev seen : List ℕ → List ℕ
seen text = c_string (map colon_to_newline text)

plain_seen : (c : ℕ) (cs : List ℕ) → is_plain c ≡ true → seen (c ∷ cs) ≡ c ∷ seen cs
unfolding c_string colon_to_newline
plain_seen c cs p =
    let a : (c == 58) ≡ false = ground arith in
    let b : (c == 0) ≡ false = ground arith in rw (a, b) refl

plain_space : (c : ℕ) → is_plain c ≡ true → is_space c ≡ false
plain_space c p = ground arith

seen-append : (xs ys : List ℕ) → ArePlain xs → seen (xs ++ ys) ≡ xs ++ seen ys
seen-append [] ys p = refl
seen-append (x ∷ xs) ys p = plain_seen x (xs ++ ys) p.0 ∙ ap (◌∷◌ x) (seen-append xs ys p.1)

seen-colon : (ys : List ℕ) → seen (58 ∷ ys) ≡ 10 ∷ seen ys
unfolding c_string colon_to_newline
seen-colon ys = refl

span-word :
    (xs ys : List ℕ) → ArePlain xs → span (λ c. not (is_space c)) (xs ++ 10 ∷ ys) ≡ (xs, 10 ∷ ys)
unfolding span
span-word [] ys p = refl
span-word (x ∷ xs) ys p = rw (plain_space x p.0) (rw (span-word xs ys p.1) refl)

-- A word that the newline of a colon ends.
scan_word-append :
    (xs ys : List ℕ) → ArePlain xs → 0 < length xs → scan_word (xs ++ 10 ∷ ys) ≡ some (xs, 10 ∷ ys)
unfolding scan_word skip_space
scan_word-append [] ys p l = absurd (omega arith)
scan_word-append (x ∷ xs) ys p l =
    let e : (length (x ∷ xs) == 0) ≡ false = ground arith in
    rw (plain_space x p.0) (rw (span-word (x ∷ xs) ys p) (rw e refl))

scan_word-newline : (xs : List ℕ) → scan_word (10 ∷ xs) ≡ scan_word xs
unfolding scan_word skip_space
scan_word-newline xs = refl

span_all : (xs : List ℕ) → AreDecimal xs → span is_decimal xs ≡ (xs, [])
unfolding span
span_all [] d = refl
span_all (x ∷ xs) d = rw (d.0) (rw (span_all xs d.1) refl)

decimal_plain : (xs : List ℕ) → AreDecimal xs → ArePlain xs
decimal_plain [] d = tt
decimal_plain (x ∷ xs) d = (let h = d.0 in ground arith, decimal_plain xs d.1)

-- A number that fits in an int.
as_int-fits : (n : ℕ) → n < 2 ^ 31 → as_int (as_long (2 ^ 63 - 1) n) ≡ pos n
unfolding as_int as_long
as_int-fits n l =
    let long : ltb (2 ^ 63 - 1) n ≡ false = ground (arith, l) in
    let low : n % 2 ^ 32 ≡ n = mod-eq_of_lt (omega (arith, l)) in
    let positive : ltb n (2 ^ 31) ≡ true = ground (arith, l) in rw long (rw low (rw positive refl))

scan_int-digits :
    (xs : List ℕ)
    → AreDecimal xs
    → 0 < length xs
    → decimal_value 0 xs < 2 ^ 31
    → scan_int (10 ∷ xs) ≡ some (pos (decimal_value 0 xs))
unfolding scan_int skip_space scan_signed scan_digits
scan_int-digits [] d l f = absurd (omega arith)
scan_int-digits (x ∷ xs) d l f =
    let h = d.0 in
    let no_space : is_space x ≡ false = ground arith in
    let no_minus : (x == 45) ≡ false = ground arith in
    let no_plus : (x == 43) ≡ false = ground arith in
    let e : (length (x ∷ xs) == 0) ≡ false = ground arith in
    rw (no_space, no_minus)
      (rw no_plus (rw (span_all (x ∷ xs) d) (rw e (ap some (as_int-fits _ f)))))

seen_all : (xs : List ℕ) → ArePlain xs → seen xs ≡ xs
unfolding c_string
seen_all [] p = refl
seen_all (x ∷ xs) p = plain_seen x xs p.0 ∙ ap (◌∷◌ x) (seen_all xs p.1)

-- The four fields with colons between them.
abbrev pub param_text : List ℕ → List ℕ → List ℕ → List ℕ → List ℕ
param_text url size fmt digits = url ++ 58 ∷ (size ++ 58 ∷ (fmt ++ 58 ∷ digits))

-- The same with newlines.
abbrev lines : List ℕ → List ℕ → List ℕ → List ℕ → List ℕ
lines url size fmt digits = url ++ 10 ∷ (size ++ 10 ∷ (fmt ++ 10 ∷ digits))

seen_field : (xs ys zs : List ℕ) → ArePlain xs → seen ys ≡ zs → seen (xs ++ 58 ∷ ys) ≡ xs ++ 10 ∷ zs
seen_field xs ys zs p e =
    seen-append xs (58 ∷ ys) p
    ∙ ap (λ (t : List ℕ). xs ++ t) (seen-colon ys ∙ ap (λ (t : List ℕ). 10 ∷ t) e)

seen_text :
    (url size fmt digits : List ℕ)
    → ArePlain url
    → ArePlain size
    → ArePlain fmt
    → AreDecimal digits
    → seen (param_text url size fmt digits) ≡ lines url size fmt digits
seen_text url size fmt digits p q r d =
    seen_field url _ _ p
      (seen_field size _ _ q (seen_field fmt _ _ r (seen_all digits (decimal_plain digits d))))

scan_word-next :
    (xs ys : List ℕ)
    → ArePlain xs
    → 0 < length xs
    → scan_word (10 ∷ (xs ++ 10 ∷ ys)) ≡ some (xs, 10 ∷ ys)
scan_word-next xs ys p l = scan_word-newline (xs ++ 10 ∷ ys) ∙ scan_word-append xs ys p l

scan_param-lines :
    (url size fmt digits : List ℕ)
    → ArePlain url × (0 < length url)
    → ArePlain size × (0 < length size)
    → ArePlain fmt × (0 < length fmt)
    → AreDecimal digits × (0 < length digits)
    → decimal_value 0 digits < 2 ^ 31
    → scan_param (lines url size fmt digits)
      ≡ some (record {
        url = url;
        input_w_x_h = size;
        pix_fmt = fmt;
        framerate = pos (decimal_value 0 digits);
      })
unfolding scan_param
scan_param-lines url size fmt digits p q r d f =
    rw (scan_param, scan_word-append url (size ++ 10 ∷ (fmt ++ 10 ∷ digits)) p.0 p.1)
      (rw (scan_word-next size (fmt ++ 10 ∷ digits) q.0 q.1)
        (rw (scan_word-next fmt digits r.0 r.1) (rw (scan_int-digits digits d.0 d.1 f) refl)))

-- Four fields with colons between them are read as they are, if the text has fewer than 1024
-- characters, the first three fields are not empty and have no space, colon or null character, and
-- the last is decimal digits of a number below 2^31: the framerate is that number.
pub input_video_param-reads :
    (url size fmt digits : List ℕ)
    → ArePlain url × (0 < length url)
    → ArePlain size × (0 < length size)
    → ArePlain fmt × (0 < length fmt)
    → AreDecimal digits × (0 < length digits)
    → decimal_value 0 digits < 2 ^ 31
    → length (param_text url size fmt digits) < 1024
    → input_video_param (param_text url size fmt digits)
      ≡ some (record {
        url = url;
        input_w_x_h = size;
        pix_fmt = fmt;
        framerate = pos (decimal_value 0 digits);
      })
unfolding input_video_param scan_param
input_video_param-reads url size fmt digits p q r d f l =
    let short : leb 1024 (length (param_text url size fmt digits)) ≡ false = ground arith in
    rw (short, seen_text url size fmt digits p.0 q.0 r.0 d.0)
      (scan_param-lines url size fmt digits p q r d f)
