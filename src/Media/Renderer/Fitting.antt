-- ===== src/Media/Renderer/Fitting.antt =====
-- The place of a picture in the window: util/renderer.cc.
use live_streaming.Base.{ℕ, ◌+◌, ◌*◌, ◌≤◌, ◌<◌, ◌≡◌, ◌⊎◌, inl, inr, Bool-cases, ltb, arith, refl}
use native.Mathlib.Nat.{mul-div-le, lt-mul-div-succ, div-le_of_le-mul}
use live_streaming.Media.Renderer.{Rect, fitted, update_rect}

-- A rectangle in a window of twice w by h, for a texture of tw by th.
pub record IsFitted (tw th w h : ℕ) (r : Rect) : Type 0 where
  pub narrow : r.w ≤ w * 2
  pub low : r.h ≤ h * 2
  pub centred_x : r.x * 2 + r.w ≡ w * 2
  pub centred_y : r.y * 2 + r.h ≡ h * 2
  pub fills : (r.w ≡ w * 2) ⊎ (r.h ≡ h * 2)
  pub not_wide : r.w * th ≤ r.h * tw + 2 * tw
  pub not_tall : r.h * tw ≤ r.w * th + 2 * th

-- UpdateRect places the picture inside a window of twice the size that SDL reports, in its middle,
-- filling it in width or in height, and with the texture's proportions but for the rounding of one
-- side to a multiple of 2.
pub update_rect-IsFitted :
    (tw th w h : ℕ) → 0 < tw → 0 < th → IsFitted tw th w h (update_rect tw th (w, h)).1
unfolding update_rect fitted
update_rect-IsFitted tw th w h p q = elim (Bool-cases (ltb (th * w) (tw * h))) [
  | inl e ↦
      let under = mul-div-le (th * w) tw in
      let over = lt-mul-div-succ (th * w) p in
      let wide : th * w ≤ tw * h = ground arith in
      let short = div-le_of_le-mul tw wide in
      rw e (record {
        narrow = omega arith;
        low = omega arith;
        centred_x = omega arith;
        centred_y = omega arith;
        fills = inl refl;
        not_wide = omega arith;
        not_tall = omega arith;
      })
  | inr e ↦
      let under = mul-div-le (tw * h) th in
      let over = lt-mul-div-succ (tw * h) q in
      let tall : tw * h ≤ th * w = ground arith in
      let slim = div-le_of_le-mul th tall in
      rw e (record {
        narrow = omega arith;
        low = omega arith;
        centred_x = omega arith;
        centred_y = omega arith;
        fills = inr refl;
        not_wide = omega arith;
        not_tall = omega arith;
      })
]
