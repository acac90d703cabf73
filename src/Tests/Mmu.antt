-- ===== src/Tests/Mmu.antt =====
-- Page tables, the page walk and the lookaside buffer on small inputs.
use tpsoaprobado.Base.{
  int32_div, int32_mod, ℕ, ◌+◌, ◌≡◌, ◌≤◌, refl, some, All, get_elem?, set, [], ◌∷◌, arith,
}
use tpsoaprobado.Memoria.PageTable.{
  Table, table, nil, cons, leaf, node, create_table, page_entry_response, find_table_by_id, Address,
  deref, table_id,
}
use tpsoaprobado.Memoria.PageTable.Shape.{Shaped, create_table-Shaped}
use tpsoaprobado.Memoria.PageTable.Search.{Shaped-hits}
use tpsoaprobado.Cpu.Tlb.{TlbConfig, tlb_algo_lru, Tlb, new_entry, TlbEntry, tlb_add_entry}
use tpsoaprobado.Cpu.Tlb.Bounds.{tlb_add_entry-Least}
use tpsoaprobado.Cpu.Mmu.{MmuConfig, mmu_perform_page_walk, mmu_translate_address}
use tpsoaprobado.Cpu.Mmu.Walk.{frame_at, mmu_perform_page_walk-frame_at}
use tpsoaprobado.Cpu.Mmu.Translation.{IsValid, mmu_translate_address-walk}

-- Two levels of two entries, with frames.
abbrev root : Table
root = table 1 (
    cons (node 2 (table 2 (cons (leaf 7) (cons (leaf 4) nil))))
      (cons (node 3 (table 3 (cons (leaf 9) (cons (leaf 5) nil)))) nil))

abbrev mmu_config : MmuConfig
mmu_config = record { page_size = 16; page_table_levels = 2; entries_per_table = 2 }

root-Shaped : Shaped 2 1 root 1 4
root-Shaped = (
  refl,
  (
    3,
    (refl, (refl, (3, refl, (3, refl, refl)))),
    (4, (refl, (refl, (4, refl, (4, refl, refl)))), refl),
  ),
)

mmu_perform_page_walk-frame_at_example :
    mmu_perform_page_walk mmu_config (λ id index. (page_entry_response root id index).0) 3
    ≡ frame_at 2 1 (some root) 3
mmu_perform_page_walk-frame_at_example =
    mmu_perform_page_walk-frame_at mmu_config 1 root 4 3 (omega arith) (omega arith) (omega arith)
      refl root-Shaped

-- The last page is in frame 5.
last_page : frame_at 2 1 (some root) 3 ≡ 5
unfolding frame_at
last_page = refl

create_table-Shaped_example : let (t, hi) = create_table 2 1 1 in Shaped 2 1 t 1 hi
create_table-Shaped_example = create_table-Shaped 2 1 1

Shaped-hits_example :
    (s : Table) × (a : Address) × (find_table_by_id root 3 ≡ some s)
    × (deref root a ≡ some s)
    × (table_id s ≡ 3)
Shaped-hits_example = Shaped-hits 2 1 root 1 4 root-Shaped 3 (omega arith) (omega arith)

abbrev tlb_config : TlbConfig
tlb_config = record { entry_count = 2; replacement_algo = tlb_algo_lru }

abbrev frame_of_page : ℕ → ℕ → ℕ
frame_of_page page pid = page + 10

abbrev warm : Tlb
warm = record {
  tlb = new_entry 4 14 1 0 ∷ new_entry 6 16 1 1 ∷ [];
  fifo_pointer = 0;
  timestamp_counter = 2;
}

warm-IsValid : IsValid frame_of_page tlb_config warm
warm-IsValid = record {
  bounded = record { size = omega arith; pointer = omega arith };
  sound = (refl, (refl, tt));
}

mmu_translate_address-walk_example :
    let (address, s') = mmu_translate_address tlb_config 16 frame_of_page 70 1 warm in
    (address ≡ 230) × IsValid frame_of_page tlb_config s'
unfolding int32_div int32_mod
mmu_translate_address-walk_example =
    mmu_translate_address-walk frame_of_page tlb_config 16 70 1 warm warm-IsValid

tlb_add_entry-Least_example :
    (j : ℕ) × (least : TlbEntry) × (get_elem? warm.tlb j ≡ some least)
    × All (λ e. least.lru_timestamp ≤ e.lru_timestamp) warm.tlb
    × (tlb_add_entry tlb_config 7 17 1 warm ≡ record {
      tlb = set warm.tlb j (record { page = 7; pid = 1; frame = 17; lru_timestamp = 2 });
      fifo_pointer = 0;
      timestamp_counter = 3;
    })
tlb_add_entry-Least_example =
    tlb_add_entry-Least tlb_config 7 17 1 warm refl (omega arith) (omega arith)
      (omega arith, (omega arith, tt))
