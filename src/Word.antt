-- ===== src/Word.antt =====
-- Machine words: `usize` is 64 bits wide, and its `+`, `-` and `*` wrap, as they do in a release
-- build. The casts `as u8`, `as u16` and `as u32` keep the low bits.
use igb_driver.Prelude.{ℕ, ◌+◌, ◌-◌, ◌*◌, ◌%◌, ◌^◌, ◌≤◌, ◌<◌, ◌≡◌, arith}

abbrev pub usize_mod : ℕ
usize_mod = 2 ^ 64

abbrev pub add_usize : ℕ → ℕ → ℕ
add_usize a b = (a + b) % usize_mod

abbrev pub sub_usize : ℕ → ℕ → ℕ
sub_usize a b = (a + usize_mod - b) % usize_mod

abbrev pub mul_usize : ℕ → ℕ → ℕ
mul_usize a b = a * b % usize_mod

abbrev pub as_u8 : ℕ → ℕ
as_u8 a = a % 2 ^ 8

abbrev pub as_u16 : ℕ → ℕ
as_u16 a = a % 2 ^ 16

abbrev pub as_u32 : ℕ → ℕ
as_u32 a = a % 2 ^ 32

abbrev pub shl_u32 : ℕ → ℕ → ℕ
shl_u32 a k = a * 2 ^ k % 2 ^ 32

-- `!a` of a `u32`.
abbrev pub not_u32 : ℕ → ℕ
not_u32 a = 2 ^ 32 - 1 - a

-- Subtraction that does not wrap.
pub sub_usize_lem : (a b : ℕ) → a < usize_mod → b ≤ a → sub_usize a b ≡ a - b
sub_usize_lem a b h l = omega arith
