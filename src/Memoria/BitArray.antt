-- ===== src/Memoria/BitArray.antt =====
-- The bit array of the commons library (commons/bitarray.h), which both frame allocators use. It is
-- not part of this repository: a parameter, with the laws that its documentation gives.
use tpsoaprobado.Base.{ℕ, ◌*◌, ◌<◌, ◌≡◌, Bool, true, false, ◌==◌, if◌then◌else◌}

pub record BitArray : Type 1 where
  pub Bits : Type 0
  pub create : ℕ → Bits
  pub size : Bits → ℕ
  pub test_bit : Bits → ℕ → Bool
  pub set_bit : Bits → ℕ → Bits
  pub clean_bit : Bits → ℕ → Bits
  pub size-create : (bytes : ℕ) → size (create bytes) ≡ 8 * bytes
  pub size-set_bit : (b : Bits) (i : ℕ) → size (set_bit b i) ≡ size b
  pub size-clean_bit : (b : Bits) (i : ℕ) → size (clean_bit b i) ≡ size b
  pub test_bit-create : (bytes i : ℕ) → i < 8 * bytes → test_bit (create bytes) i ≡ false
  pub test_bit-set_bit :
      (b : Bits) (i j : ℕ)
      → i < size b
      → test_bit (set_bit b i) j ≡ (if i == j then true else test_bit b j)
  pub test_bit-clean_bit :
      (b : Bits) (i j : ℕ)
      → i < size b
      → test_bit (clean_bit b i) j ≡ (if i == j then false else test_bit b j)
