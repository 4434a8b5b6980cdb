-- ===== src/Estl/Size.antt =====
-- Sizes of a `simplevec` (src/estl.h): `size_type` is `uint32_t`.
use libptytty.Base.{ℕ, ◌+◌, ◌-◌, ◌*◌, ◌/◌, ◌%◌, ◌^◌, ◌==◌, if◌then◌else◌}

abbrev pub size_mod : ℕ
size_mod = 2 ^ 32

unfoldable pub add_size : ℕ → ℕ → ℕ
add_size a b = (a + b) % size_mod

unfoldable pub sub_size : ℕ → ℕ → ℕ
sub_size a b = (a + size_mod - b) % size_mod

-- `good_size`: `ld32` is `ecb_ld32`, the position of the highest bit.
unfoldable pub good_size : (ℕ → ℕ) → ℕ → ℕ
good_size ld32 n = if n == 0 then 5 else (2 * 2 ^ ld32 n) % size_mod

-- `max_size`: ~0 >> 1
pub max_size : ℕ
max_size = (size_mod - 1) / 2
