-- ===== src/Cpu/Mmu.antt =====
-- The address translation of cpu/src/mmu.c: the page walk over the tables that the memory module
-- keeps, and the translation through the lookaside buffer. An int32_t is its bit pattern.
pub mod Walk
pub mod Translation
use tpsoaprobado.Base.{
  ℕ, zero, suc, ◌+◌, ◌*◌, ◌/◌, ◌%◌, ◌^◌, Bool, ◌==◌, Option, none, some, int32_div, int32_mod,
  if◌then◌else◌,
}
use tpsoaprobado.Cpu.Tlb.{TlbEntry, TlbConfig, Tlb, tlb_find_entry, tlb_add_entry}

-- `MMUConfig`.
pub record MmuConfig : Type 0 where
  pub page_size : ℕ
  pub page_table_levels : ℕ
  pub entries_per_table : ℕ

-- The loop of `mmu_perform_page_walk` over the levels that are left. `ask` is
-- `mmu_request_pagetable_entry_from_memory` for the process: the answer to a table id and an index.
unfoldable pub page_walk_from : (ℕ → ℕ → ℕ) → ℕ → ℕ → ℕ → ℕ → ℕ
unfolding int32_div int32_mod
page_walk_from ask entries_per_table page_number zero next_table_id = next_table_id
page_walk_from ask entries_per_table page_number (suc power) next_table_id =
    let value =
      ask next_table_id
        (int32_mod (int32_div page_number (entries_per_table ^ power)) entries_per_table) in
    let rest = page_walk_from ask entries_per_table page_number power value in
    if value == 0 then 0 else rest

unfoldable pub mmu_perform_page_walk : MmuConfig → (ℕ → ℕ → ℕ) → ℕ → ℕ
unfolding page_walk_from
mmu_perform_page_walk config ask page_number =
    page_walk_from ask config.entries_per_table page_number config.page_table_levels 1

-- The frame of a page after the buffer is searched.
abbrev pub frame_or_walk : TlbConfig → (ℕ → ℕ → ℕ) → ℕ → ℕ → Option TlbEntry × Tlb → ℕ × Tlb
frame_or_walk config walk page_number pid (some e, s) = (e.frame, s)
frame_or_walk config walk page_number pid (none, s) =
    let frame_number = walk page_number pid in
    (frame_number, tlb_add_entry config page_number frame_number pid s)

-- The frame of a page, from the buffer or from the walk, which then goes to the buffer.
unfoldable pub frame_of : TlbConfig → (ℕ → ℕ → ℕ) → ℕ → ℕ → Tlb → ℕ × Tlb
unfolding tlb_find_entry tlb_add_entry
frame_of config walk page_number pid s =
    frame_or_walk config walk page_number pid (tlb_find_entry config page_number pid s)

-- The address, by the arithmetic of int32_t.
abbrev pub with_offset : ℕ → ℕ → ℕ × Tlb → ℕ × Tlb
with_offset page_size offset (frame_number, s) = ((frame_number * page_size + offset) % 2 ^ 32, s)

-- `walk` is `mmu_perform_page_walk` on the memory at that moment: the frame of a page of a process.
unfoldable pub mmu_translate_address : TlbConfig → ℕ → (ℕ → ℕ → ℕ) → ℕ → ℕ → Tlb → ℕ × Tlb
unfolding frame_of int32_div int32_mod
mmu_translate_address config page_size walk logical_address pid s =
    with_offset page_size (int32_mod logical_address page_size)
      (frame_of config walk (int32_div logical_address page_size) pid s)

unfoldable pub mmu_translate_address_with_page_number :
    TlbConfig → ℕ → (ℕ → ℕ → ℕ) → ℕ → ℕ → Tlb → ℕ × Tlb
unfolding frame_of
mmu_translate_address_with_page_number config page_size walk page_number pid s =
    with_offset page_size 0 (frame_of config walk page_number pid s)
