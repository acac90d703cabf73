-- ===== src/Tests/Memory.antt =====
-- The user space and the swap file of a small memory: pages of two bytes, three frames.
use tpsoaprobado.Base.{
  ℕ, Bool, ◌*◌, ◌==◌, ◌-◌, ◌^◌, ◌≡◌, refl, inl, true, false, none, some, List, [], ◌∷◌, length,
  arith, if◌then◌else◌,
}
use tpsoaprobado.Memoria.BitArray.{BitArray}
use tpsoaprobado.Memoria.Frames.{Pool}
use tpsoaprobado.Memoria.Frames.Counting.{IsValid}
use tpsoaprobado.Memoria.UserSpace.{write_to_user_space, read_from_user_space}
use tpsoaprobado.Memoria.UserSpace.Bounds.{write_to_user_space-inside}
use tpsoaprobado.Memoria.UserSpace.Stored.{
  read_from_user_space-write_to_user_space, write_to_user_space-none,
}
use tpsoaprobado.Memoria.Processes.{MemoriaConfig, ProcessInfo, Memoria, no_metrics, find_process}
use tpsoaprobado.Memoria.Creation.{Scripts, create_process}
use tpsoaprobado.Memoria.Creation.Outcome.{Created, create_process-Created}
use tpsoaprobado.Memoria.Swap.{swap_out_process, swap_in_process, suspended_at, count_swap_out}
use tpsoaprobado.Memoria.Swap.RoundTrip.{
  CanSuspend, Suspended, CanResume, Resumed, swap_out_process-Suspended, swap_in_process-Resumed,
}

abbrev space : List ℕ
space = 1 ∷ 2 ∷ 3 ∷ 4 ∷ 5 ∷ 6 ∷ []

write_to_user_space-inside_example :
    (t : List ℕ) × (write_to_user_space 2 4 (8 ∷ 9 ∷ []) space ≡ some t) × (length t ≡ length space)
write_to_user_space-inside_example =
    write_to_user_space-inside 2 4 (8 ∷ 9 ∷ []) space (omega arith) (omega arith) (omega arith)

read_from_user_space-write_to_user_space_example :
    (t : List ℕ) × (write_to_user_space 2 2 (8 ∷ 9 ∷ []) space ≡ some t)
    × (read_from_user_space 2 2 t ≡ some (8 ∷ 9 ∷ []))
    × (read_from_user_space 0 2 t ≡ read_from_user_space 0 2 space)
read_from_user_space-write_to_user_space_example =
    read_from_user_space-write_to_user_space 2 2 (8 ∷ 9 ∷ []) space (omega arith) (omega arith)
      (omega arith) 0 2 (omega arith) (omega arith) (inl (omega arith))

write_to_user_space-none_example : write_to_user_space 2 (2 ^ 32 - 1) (8 ∷ 9 ∷ []) space ≡ none
write_to_user_space-none_example =
    write_to_user_space-none 2 1 (8 ∷ 9 ∷ []) space (omega arith) (omega arith) (omega arith)
      (omega arith) (omega arith)

-- The bit array of the tests.
abbrev write : ℕ × (ℕ → Bool) → ℕ → Bool → ℕ × (ℕ → Bool)
write (n, bits) i v = (n, λ j. if i == j then v else bits j)

abbrev pub bits : BitArray
bits = record {
  Bits = ℕ × (ℕ → Bool);
  create = λ bytes. (8 * bytes, λ j. false);
  size = λ b. b.0;
  test_bit = λ b i. b.1 i;
  set_bit = λ b i. write b i true;
  clean_bit = λ b i. write b i false;
  size-create = λ bytes. refl;
  size-set_bit = λ b i. refl;
  size-clean_bit = λ b i. refl;
  test_bit-create = λ bytes i h. refl;
  test_bit-set_bit = λ b i j h. refl;
  test_bit-clean_bit = λ b i j h. refl;
}

abbrev pub config : MemoriaConfig
config = record { tam_pagina = 2; entradas_por_tabla = 2; cantidad_niveles = 2 }

abbrev pub process : ProcessInfo
process = record {
  pid = 1;
  process_size = 3;
  is_suspended = false;
  instructions = [];
  page_table = none;
  metrics = no_metrics;
  allocated_frames = some (2 ∷ 0 ∷ []);
}

abbrev free_pool : ℕ → Pool bits
free_pool total = record { total = total; free_count = total; bitmap = (8, λ j. false) }

free_pool-IsValid : IsValid bits (free_pool 3)
free_pool-IsValid = record { counted = refl; fits = omega arith }

abbrev pub memory : Memoria bits
memory = record {
  process_list = process ∷ [];
  frames = record {
    total = 3;
    free_count = 1;
    bitmap = write (write (8, λ j. false) 2 true) 0 true;
  };
  swap_frames = free_pool 3;
  user_space = space;
  swap_file = [];
}

can_suspend : CanSuspend bits config 1 process (2 ∷ 0 ∷ []) memory
unfolding find_process
can_suspend = record {
  some_size = omega arith;
  page_size = omega arith;
  found = refl;
  running = refl;
  framed = refl;
  inside = (omega arith, (omega arith, tt));
  space = omega arith;
  pool = free_pool-IsValid;
  free = omega arith;
  positions = omega arith;
}

swap_out_process-Suspended_example :
    (n : Memoria bits) × (ss : List ℕ) × (swap_out_process bits config (λ at. 2) 1 memory
      ≡ some (true, n))
    × Suspended bits config 1 process (2 ∷ 0 ∷ []) ss memory n
swap_out_process-Suspended_example =
    swap_out_process-Suspended bits config (λ at. 2) 1 process (2 ∷ 0 ∷ []) memory
      (λ at. omega arith) can_suspend

abbrev asleep : ProcessInfo
asleep = count_swap_out (suspended_at (some (0 ∷ 1 ∷ [])) process)

-- The memory after the suspension, with all frames free.
abbrev swapped : Memoria bits
swapped = record {
  process_list = asleep ∷ [];
  frames = free_pool 3;
  swap_frames = record {
    total = 3;
    free_count = 1;
    bitmap = write (write (8, λ j. false) 0 true) 1 true;
  };
  user_space = space;
  swap_file = 5 ∷ 6 ∷ 1 ∷ 2 ∷ [];
}

can_resume : CanResume bits config 1 asleep (0 ∷ 1 ∷ []) swapped
unfolding find_process
can_resume = record {
  some_size = omega arith;
  page_size = omega arith;
  found = refl;
  suspended = refl;
  framed = refl;
  some_frame = omega arith;
  reachable = (omega arith, (omega arith, tt));
  there = (omega arith, (omega arith, tt));
  pool = free_pool-IsValid;
  free = omega arith;
  frames = omega arith;
  space = omega arith;
}

swap_in_process-Resumed_example :
    (n : Memoria bits) × (us : List ℕ) × (swap_in_process bits config 1 swapped ≡ some (true, n))
    × Resumed bits config 1 asleep (0 ∷ 1 ∷ []) us swapped n
swap_in_process-Resumed_example =
    swap_in_process-Resumed bits config 1 asleep (0 ∷ 1 ∷ []) swapped can_resume

-- The memory right after the suspension.
abbrev slept : Memoria bits
slept = record swapped {
  frames = record {
    total = 3;
    free_count = 3;
    bitmap = write (write (write (write (8, λ j. false) 2 true) 0 true) 2 false) 0 false;
  };
}

abbrev small : Memoria bits
small = record memory { process_list = []; frames = free_pool 3 }

abbrev scripts : Scripts
scripts path = some ((78 ∷ 79 ∷ 79 ∷ 80 ∷ 10 ∷ []) ∷ [])

create_process-Created_example :
    (success : Bool) × (n : Memoria bits) × (create_process bits config scripts 7 3 [] small
      ≡ some (success, n))
    × Created bits 2 7 3 small success n
create_process-Created_example =
    create_process-Created bits config 7 3 small free_pool-IsValid scripts []
