-- ===== src/Common/Int.antt =====
-- C++'s `int`, and its conversion to `size_t`.
use Prim.Native.Nat.{ℕ, ◌-◌, ◌%◌}
use shared_memory_hashtable.Common.Tests.{size_mod}

-- `negsuc n` is -(n + 1).
pub data ℤ : Type 0 where
  pos : ℕ → ℤ
  negsuc : ℕ → ℤ

-- `static_cast<size_t>`
abbrev pub to_size : ℤ → ℕ
to_size (pos n) = n % size_mod
to_size (negsuc n) = size_mod - 1 - n % size_mod
