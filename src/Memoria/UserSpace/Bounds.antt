-- ===== src/Memoria/UserSpace/Bounds.antt =====
-- When the reads and writes of the user space stay inside it, and what they leave.
use tpsoaprobado.Base.{
  ℕ, ◌+◌, ◌^◌, ◌≤◌, ◌<◌, ◌≡◌, refl, true, false, some, List, length, replicate, ltb, arith,
  length-replicate, Bool-cases, inl, inr, lt→ltb, le→ltb, ◌⊎◌,
}
use tpsoaprobado.Memoria.Bytes.{overwrite, slice, length-overwrite, length-slice}
use tpsoaprobado.Memoria.UserSpace.{exceeds, write_to_user_space, read_from_user_space}

module _ (a size : ℕ) (s : List ℕ) (space : length s < 2 ^ 31) (a_pos : a < 2 ^ 31)
    (n_pos : size < 2 ^ 31) where
  exceeds-in : a + size ≤ length s → exceeds a size s ≡ false
  exceeds-in h = ground arith

  exceeds-out : length s < a + size → exceeds a size s ≡ true
  exceeds-out h = ground arith

  -- A read at an address that is not negative stays inside the user space and fills the buffer.
  pub read_from_user_space-inside :
      (bytes : List ℕ) × (read_from_user_space a size s ≡ some bytes) × (length bytes ≡ size)
  unfolding read_from_user_space
  read_from_user_space-inside = elim (Bool-cases (ltb (length s) (a + size))) [
    | inl out ↦ rw (exceeds-out (ground arith)) (replicate size 0, refl, length-replicate size 0)
    | inr fits ↦
        rw (exceeds-in (ground arith), lt→ltb a (2 ^ 31) a_pos)
          (slice a size s, refl, length-slice a size s (ground arith))
  ]

module _ (tam_pagina a : ℕ) (v s : List ℕ) (space : length s < 2 ^ 31) (a_pos : a < 2 ^ 31)
    (n_pos : length v < 2 ^ 31) where
  -- A write at an address that is not negative stays inside the user space, whose size it keeps.
  pub write_to_user_space-inside :
      (t : List ℕ) × (write_to_user_space tam_pagina a v s ≡ some t) × (length t ≡ length s)
  unfolding write_to_user_space
  write_to_user_space-inside = elim (Bool-cases (ltb tam_pagina (length v))) [
    | inl large ↦ rw large (s, refl, refl)
    | inr small ↦ rw small (elim (Bool-cases (ltb (length s) (a + length v))) [
      | inl out ↦ rw (exceeds-out a (length v) s space a_pos n_pos (ground arith)) (s, refl, refl)
      | inr fits ↦
          rw (exceeds-in a (length v) s space a_pos n_pos (ground arith), lt→ltb a (2 ^ 31) a_pos)
            (overwrite a v s, refl, length-overwrite a v s (ground arith))
    ])
  ]

  -- A write of at most a page inside the user space is the copy.
  pub write_to_user_space-fits :
      length v ≤ tam_pagina
      → a + length v ≤ length s
      → write_to_user_space tam_pagina a v s ≡ some (overwrite a v s)
  unfolding write_to_user_space
  write_to_user_space-fits small fits = rw (
    le→ltb tam_pagina (length v) small,
    exceeds-in a (length v) s space a_pos n_pos fits,
    lt→ltb a (2 ^ 31) a_pos,
  )

  -- A write of more than a page, or past the end, changes nothing.
  pub write_to_user_space-refused :
      (tam_pagina < length v) ⊎ (length s < a + length v)
      → write_to_user_space tam_pagina a v s ≡ some s
  unfolding write_to_user_space
  write_to_user_space-refused (inl large) = rw (lt→ltb tam_pagina (length v) large)
  write_to_user_space-refused (inr out) =
      rw (exceeds-out a (length v) s space a_pos n_pos out) (ground arith)

pub read_from_user_space-fits :
    (a size : ℕ) (s : List ℕ)
    → length s < 2 ^ 31
    → a < 2 ^ 31
    → size < 2 ^ 31
    → a + size ≤ length s
    → read_from_user_space a size s ≡ some (slice a size s)
unfolding read_from_user_space
read_from_user_space-fits a size s space a_pos n_pos fits =
    rw (exceeds-in a size s space a_pos n_pos fits, lt→ltb a (2 ^ 31) a_pos)
