-- ===== src/Memoria/Creation.antt =====
-- The creation of a process: memoria/src/client/init-process/init-process.c. Sizes are not
-- negative, and `malloc` gives what it is asked for.
pub mod Outcome
use mathlib.Core.Option
use tpsoaprobado.Base.{
  ℕ, ◌+◌, ◌-◌, ◌/◌, Bool, true, false, ◌&&◌, ◌||◌, ◌==◌, Option, none, some, List, [], ◌∷◌, ◌++◌,
  length, ltb, if◌then◌else◌,
}
use tpsoaprobado.Memoria.BitArray.{BitArray}
use tpsoaprobado.Memoria.Frames.{Pool, allocate_frames, release_frames}
use tpsoaprobado.Memoria.PageTable.{Table, init_page_table, assign_frames}
use tpsoaprobado.Memoria.Processes.{MemoriaConfig, ProcessInfo, no_metrics, Memoria}

-- A newline, a carriage return, a space or a tab.
abbrev pub is_blank : ℕ → Bool
is_blank c = (c == 10) || (c == 13) || (c == 32) || (c == 9)

abbrev pub is_empty : List ℕ → Bool
is_empty [] = true
is_empty (c ∷ cs) = false

-- The inner loop of `process_manager_load_script_lines`, which cuts blanks off the end of a line.
unfoldable pub trim_end : List ℕ → List ℕ
trim_end [] = []
trim_end (c ∷ cs) = let rest = trim_end cs in if is_blank c && is_empty rest then [] else c ∷ rest

-- Its outer loop, over the lines that `getline` gives; the lines that are left empty are dropped.
unfoldable pub load_lines : List (List ℕ) → List (List ℕ)
unfolding trim_end
load_lines [] = []
load_lines (line ∷ lines) =
    let rest = load_lines lines in if is_empty (trim_end line) then rest else trim_end line ∷ rest

-- The file that a path names below PATH_INSTRUCCIONES, as the lines in it; `none`: it does not
-- open.
abbrev pub Scripts : Type 0
Scripts = List ℕ → Option (List (List ℕ))

unfoldable pub process_manager_load_script_lines : Scripts → Scripts
unfolding load_lines
process_manager_load_script_lines scripts path = Option.map load_lines (scripts path)

-- `ceil(size / TAM_PAGINA)`.
unfoldable pub pages_needed : ℕ → ℕ → ℕ
pages_needed tam_pagina size = (size + (tam_pagina - 1)) / tam_pagina

abbrev pub new_process : ℕ → ℕ → List (List ℕ) → Option Table → Option (List ℕ) → ProcessInfo
new_process pid size instructions page_table allocated_frames = record {
  pid = pid;
  process_size = size;
  is_suspended = false;
  instructions = instructions;
  page_table = page_table;
  metrics = no_metrics;
  allocated_frames = allocated_frames;
}

module _ (B : BitArray) where
  abbrev pub add_process : ProcessInfo → Memoria B → Memoria B
  add_process p m = record m { process_list = m.process_list ++ p ∷ [] }

  -- After `assign_frames`; `q` is the pool that the frames were taken from.
  abbrev pub after_assignment :
      ℕ → ℕ → List (List ℕ) → List ℕ → Pool B → Memoria B → Bool × Table → Bool × Memoria B
  after_assignment pid size instructions taken q m (success, t) =
      if success
      then (
        true,
        add_process (new_process pid size instructions (some t) (some taken))
            (record m { frames = q }),
      )
      else (false, record m { frames = release_frames B taken q })

  -- After `allocate_frames`. Frames of the wrong number are not given back.
  abbrev pub after_allocation :
      MemoriaConfig
      → ℕ
      → ℕ
      → List (List ℕ)
      → Memoria B
      → Option (List ℕ × Pool B)
      → Option (Bool × Memoria B)
  after_allocation config pid size instructions m none = some (false, m)
  after_allocation config pid size instructions m (some (taken, q)) =
      let pages = pages_needed config.tam_pagina size in
      let assigned = Option.map (after_assignment pid size instructions taken q m) (
        assign_frames config.entradas_por_tabla config.cantidad_niveles
          (init_page_table config.entradas_por_tabla config.cantidad_niveles) taken pages) in
      if length taken == pages then assigned else some (false, record m { frames = q })

  abbrev pub create_loaded :
      MemoriaConfig → ℕ → ℕ → Memoria B → Option (List (List ℕ)) → Option (Bool × Memoria B)
  create_loaded config pid size m none = some (false, m)
  create_loaded config pid size m (some instructions) =
      let pages = pages_needed config.tam_pagina size in
      let paged =
        if ltb m.frames.free_count pages
        then some (false, m)
        else after_allocation config pid size instructions m (allocate_frames B m.frames pages) in
      if size == 0
      then some (true, add_process (new_process pid size instructions none none) m)
      else paged

  -- `create_process`; `none`: the assignment of the frames is out of fuel.
  unfoldable pub create_process :
      MemoriaConfig → Scripts → ℕ → ℕ → List ℕ → Memoria B → Option (Bool × Memoria B)
  unfolding process_manager_load_script_lines pages_needed init_page_table assign_frames
  create_process config scripts pid size script_path m =
      create_loaded config pid size m (process_manager_load_script_lines scripts script_path)
