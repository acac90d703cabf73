-- ===== src/Memoria/UserSpace/Stored.antt =====
-- What is read from the user space after a write.
use tpsoaprobado.Base.{
  ℕ, ◌+◌, ◌-◌, ◌^◌, ◌≤◌, ◌<◌, ◌≡◌, ◌∙◌, ap, sym, none, some, List, length, take, arith, ◌⊎◌, inl,
  inr, le→ltb,
}
use tpsoaprobado.Memoria.Bytes.{
  overwrite, slice, length-overwrite, slice-overwrite, slice-overwrite_before, drop-overwrite_after,
}
use tpsoaprobado.Memoria.UserSpace.{write_to_user_space, read_from_user_space}
use tpsoaprobado.Memoria.UserSpace.Bounds.{write_to_user_space-fits, read_from_user_space-fits}

-- The bytes of an array that a write does not meet.
pub slice-overwrite_apart :
    (b size a : ℕ) (v s : List ℕ)
    → b + size ≤ length s
    → (b + size ≤ a) ⊎ (a + length v ≤ b)
    → slice b size (overwrite a v s) ≡ slice b size s
slice-overwrite_apart b size a v s fits (inl before) =
    slice-overwrite_before b size a v s before fits
slice-overwrite_apart b size a v s fits (inr after) =
    ap (take size) (drop-overwrite_after b a v s after)

module _ (tam_pagina a : ℕ) (v s : List ℕ) (space : length s < 2 ^ 31)
    (small : length v ≤ tam_pagina) (fits : a + length v ≤ length s) where
  -- After a write of at most a page inside the user space, a read of the same range gives what was
  -- written, and a read of a range inside that does not meet it gives what it gave before.
  pub read_from_user_space-write_to_user_space :
      (b size : ℕ)
      → 0 < size
      → b + size ≤ length s
      → (b + size ≤ a) ⊎ (a + length v ≤ b)
      → (t : List ℕ) × (write_to_user_space tam_pagina a v s ≡ some t)
        × (read_from_user_space a (length v) t ≡ some v)
        × (read_from_user_space b size t ≡ read_from_user_space b size s)
  read_from_user_space-write_to_user_space b size used inside apart = (
    overwrite a v s,
    write_to_user_space-fits tam_pagina a v s space (omega arith) (omega arith) small fits,
    read_from_user_space-fits a (length v) (overwrite a v s)
          (omega (arith, length-overwrite a v s fits)) (omega arith) (omega arith)
          (omega (arith, length-overwrite a v s fits))
        ∙ ap some (slice-overwrite a v s),
    read_from_user_space-fits b size (overwrite a v s) (omega (arith, length-overwrite a v s fits))
          (omega arith) (omega arith) (omega (arith, length-overwrite a v s fits))
        ∙ ap some (slice-overwrite_apart b size a v s inside apart)
        ∙ sym (read_from_user_space-fits b size s space (omega arith) (omega arith) inside),
  )

-- A write of at most a page at a negative address whose end is not leaves the user space: the guard
-- lets through the `k` bytes before it, if the bytes after them fit.
pub write_to_user_space-none :
    (tam_pagina k : ℕ) (v s : List ℕ)
    → length v ≤ tam_pagina
    → 0 < k
    → k ≤ length v
    → length v < k + length s
    → length v < 2 ^ 31
    → write_to_user_space tam_pagina (2 ^ 32 - k) v s ≡ none
unfolding write_to_user_space
write_to_user_space-none tam_pagina k v s small pos reaches fits n_pos =
    rw (le→ltb tam_pagina (length v) small) (ground arith)
