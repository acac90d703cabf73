-- ===== src/Memoria/UserSpace.antt =====
-- The user space of memoria/src/user_space/user_space_memory.c. An int32_t is its bit pattern; each
-- function copies under its mutex, so it is one step. `none`: the copy leaves the array.
pub mod Bounds
pub mod Stored
use tpsoaprobado.Base.{
  ℕ, ◌+◌, ◌-◌, ◌%◌, ◌^◌, Bool, Option, none, some, List, length, replicate, ltb, if◌then◌else◌,
}
use tpsoaprobado.Memoria.Bytes.{overwrite, slice}

-- `init_user_space`.
unfoldable pub init_user_space : ℕ → List ℕ
init_user_space size = replicate size 0

-- An int32_t that is compared with a size_t.
abbrev pub as_size : ℕ → ℕ
as_size n = if ltb n (2 ^ 31) then n else n + (2 ^ 64 - 2 ^ 32)

-- `physical_address + size > user_space_size`.
abbrev pub exceeds : ℕ → ℕ → List ℕ → Bool
exceeds physical_address size user_space =
    ltb (length user_space) (as_size ((physical_address + size) % 2 ^ 32))

-- What a copy at an address gives: an address that is negative lies before the array.
abbrev pub at_address {ℓ} : {A : Type ℓ} → ℕ → A → Option A
at_address physical_address a = if ltb physical_address (2 ^ 31) then some a else none

-- `write_to_user_space`; `size` is the number of bytes handed in.
unfoldable pub write_to_user_space : ℕ → ℕ → List ℕ → List ℕ → Option (List ℕ)
unfolding overwrite
write_to_user_space tam_pagina physical_address value user_space =
    if ltb tam_pagina (length value)
    then some user_space
    else if exceeds physical_address (length value) user_space
    then some user_space
    else at_address physical_address (overwrite physical_address value user_space)

-- `read_from_user_space`: what the buffer holds afterwards.
unfoldable pub read_from_user_space : ℕ → ℕ → List ℕ → Option (List ℕ)
read_from_user_space physical_address size user_space =
    if exceeds physical_address size user_space
    then some (replicate size 0)
    else at_address physical_address (slice physical_address size user_space)
