-- ===== src/Memoria/Processes.antt =====
-- The state of the memory module and its processes: memoria/src/kernel_space/process_manager.c. A
-- function holds the mutex of the list throughout; requests are handled one at a time here, where
-- the program may interleave those of two clients.
pub mod Finding
use tpsoaprobado.Base.{
  ℕ, ◌+◌, Bool, true, false, ◌==◌, Option, none, some, List, [], ◌∷◌, if◌then◌else◌,
}
use tpsoaprobado.Memoria.BitArray.{BitArray}
use tpsoaprobado.Memoria.Frames.{Pool, release_frames}
use tpsoaprobado.Memoria.PageTable.{Table}

-- `t_memoria_config`, as far as it is read here.
pub record MemoriaConfig : Type 0 where
  pub tam_pagina : ℕ
  pub entradas_por_tabla : ℕ
  pub cantidad_niveles : ℕ

-- `t_process_metrics`.
pub record ProcessMetrics : Type 0 where
  pub page_table_access_count : ℕ
  pub instruction_requests_count : ℕ
  pub swap_out_count : ℕ
  pub swap_in_count : ℕ
  pub memory_read_count : ℕ
  pub memory_write_count : ℕ

-- The `memset` of the metrics.
abbrev pub no_metrics : ProcessMetrics
no_metrics = record {
  page_table_access_count = 0;
  instruction_requests_count = 0;
  swap_out_count = 0;
  swap_in_count = 0;
  memory_read_count = 0;
  memory_write_count = 0;
}

-- `process_info`. `none` is a pointer that no one has set: the page table and the frames of a
-- process of size 0 are what `malloc` leaves, here taken to be null. The instructions are never
-- null.
pub record ProcessInfo : Type 0 where
  pub pid : ℕ
  pub process_size : ℕ
  pub is_suspended : Bool
  pub instructions : List (List ℕ)
  pub page_table : Option Table
  pub metrics : ProcessMetrics
  pub allocated_frames : Option (List ℕ)

-- `process_manager_find_process`: the first with the pid.
unfoldable pub find_process : ℕ → List ProcessInfo → Option ProcessInfo
find_process pid [] = none
find_process pid (p ∷ ps) =
    let found = find_process pid ps in if p.pid == pid then some p else found

-- A change through the pointer that `process_manager_find_process` returns.
unfoldable pub update_process :
    ℕ → (ProcessInfo → ProcessInfo) → List ProcessInfo → List ProcessInfo
update_process pid f [] = []
update_process pid f (p ∷ ps) =
    let changed = update_process pid f ps in if p.pid == pid then f p ∷ ps else p ∷ changed

-- `list_remove` at the index that the loop finds: the list without the first with the pid.
unfoldable pub remove_process : ℕ → List ProcessInfo → List ProcessInfo
remove_process pid [] = []
remove_process pid (p ∷ ps) =
    let kept = remove_process pid ps in if p.pid == pid then ps else p ∷ kept

module _ (B : BitArray) where
  -- `global_process_list`, the two allocators, the user space and the swap file.
  pub record Memoria : Type 0 where
    pub process_list : List ProcessInfo
    pub frames : Pool B
    pub swap_frames : Pool B
    pub user_space : List ℕ
    pub swap_file : List ℕ

  abbrev pub release_allocated : Option (List ℕ) → Pool B → Pool B
  release_allocated none pool = pool
  release_allocated (some frames) pool = release_frames B frames pool

  -- `destroy_process_info`: what it does to the frames.
  unfoldable pub destroy_process_info : ProcessInfo → Pool B → Pool B
  unfolding release_frames
  destroy_process_info p pool =
      if p.process_size == 0 then pool else release_allocated p.allocated_frames pool

  abbrev pub delete_found : ℕ → Option ProcessInfo → Memoria → Bool × Memoria
  delete_found pid none m = (false, m)
  delete_found pid (some p) m = (
    true,
    record m {
      process_list = remove_process pid m.process_list;
      frames = destroy_process_info p m.frames;
    },
  )

  unfoldable pub process_manager_delete_process : ℕ → Memoria → Bool × Memoria
  unfolding find_process remove_process destroy_process_info
  process_manager_delete_process pid m = delete_found pid (find_process pid m.process_list) m
