-- ===== src/Ring/Pixels.antt =====
-- A pixel, `struct ring_rgb` of ring.h.
use zephyr_applications.Common.{ℕ}

pub record Rgb : Type 0 where
  pub r : ℕ
  pub g : ℕ
  pub b : ℕ

abbrev pub rgb : ℕ → ℕ → ℕ → Rgb
rgb r g b = record { r = r; g = g; b = b }
