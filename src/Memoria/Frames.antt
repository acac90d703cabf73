-- ===== src/Memoria/Frames.antt =====
-- The two frame allocators, over one pool type: memoria/src/user_space/frame_manager.c for the main
-- memory, and the allocator of memoria/src/swap_space/swap_manager.c. Counts of frames are not
-- negative; each function holds its mutex throughout, so it is one step.
pub mod Counting
pub mod Allocation
pub mod Release
use tpsoaprobado.Base.{
  ℕ, zero, suc, ◌+◌, ◌-◌, ◌/◌, ◌%◌, Bool, true, false, ◌==◌, Option, none, some, List, [], ◌∷◌,
  length, ltb, if◌then◌else◌,
}
use tpsoaprobado.Memoria.BitArray.{BitArray}

-- `bitmap_size`.
unfoldable pub bitmap_bytes : ℕ → ℕ
bitmap_bytes total = if total % 8 == 0 then total / 8 else total / 8 + 1

module _ (B : BitArray) where
  open B use {Bits, create, test_bit, set_bit, clean_bit}

  -- `frames_total`, `frames_free_count`, `frames_bitmap`.
  pub record Pool : Type 0 where
    pub total : ℕ
    pub free_count : ℕ
    pub bitmap : Bits

  -- What `frame_allocation_init` and `swap_manager_init` set up: every frame is free.
  unfoldable pub init_pool : ℕ → Pool
  unfolding bitmap_bytes
  init_pool total = record {
    total = total;
    free_count = total;
    bitmap = create (bitmap_bytes total);
  }

  -- `frame_allocation_init`. A page is not empty.
  unfoldable pub frame_allocation_init : ℕ → ℕ → Pool
  unfolding init_pool
  frame_allocation_init tam_memoria tam_pagina = init_pool (tam_memoria / tam_pagina)

  -- The frames that the swap file starts with, SWAP_INITIAL_FRAMES.
  unfoldable pub swap_frames_init : Pool
  unfolding init_pool
  swap_frames_init = init_pool 4096

  -- The loop of the allocators, with the rounds left (`total - frame_index`), `frame_index`, and
  -- the frames still needed. What a `let` binds is only computed where it is used.
  unfoldable pub take_free : ℕ → ℕ → ℕ → Bits → List ℕ × Bits
  take_free zero index needed bits = ([], bits)
  take_free (suc rounds) index zero bits = ([], bits)
  take_free (suc rounds) index (suc needed) bits =
      let skipped = take_free rounds (suc index) (suc needed) bits in
      let taken = take_free rounds (suc index) needed (set_bit bits index) in
      if test_bit bits index then skipped else (index ∷ taken.0, taken.1)

  -- `none` is the NULL of `allocate_frames`, which leaves the pool as it is.
  unfoldable pub allocate_frames : Pool → ℕ → Option (List ℕ × Pool)
  unfolding take_free
  allocate_frames p needed =
      let (frames, bits) = take_free p.total 0 needed p.bitmap in
      if ltb p.free_count needed
      then none
      else some (frames, record p { bitmap = bits; free_count = p.free_count - length frames })

  unfoldable pub clean_bits : List ℕ → Bits → Bits
  clean_bits [] bits = bits
  clean_bits (f ∷ frames) bits = clean_bits frames (clean_bit bits f)

  unfoldable pub release_frames : List ℕ → Pool → Pool
  unfolding clean_bits
  release_frames frames p = record p {
    bitmap = clean_bits frames p.bitmap;
    free_count = p.free_count + length frames;
  }
