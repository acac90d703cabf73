-- ===== src/Utils/Dtp/Delivery.antt =====
-- What the sender of a package puts in is what the receiver reads out, over the wire.
pub mod Bytes
pub mod Text
pub mod Every
use tpsoaprobado.Base.{
  ℕ, zero, suc, ◌+◌, ◌-◌, ◌*◌, ◌^◌, ◌<◌, ◌≤◌, ◌≡◌, refl, ap, sym, ◌∙◌, ◌==◌, Bool, true, false, not,
  Option, none, some, List, [], ◌∷◌, ◌++◌, append_assoc, append-nil, subst, ltb, if◌then◌else◌,
  arith, lt→ltb, length, take, drop, replicate, length-append, length-replicate, length-drop,
}
use tpsoaprobado.Utils.Buffer.{
  Buffer, Reader, buffer_create, buffer_add_int32, buffer_add_string, buffer_add, int32_bytes,
  buffer_read, buffer_read_int32, buffer_read_string, return, ◌>>=◌,
}
use tpsoaprobado.Utils.Buffer.Laws.{
  Holds, Reads, Reads->>=, Reads-last, Reads-return, buffer_create-Holds, buffer_add_int32-Holds,
  buffer_add-Holds, buffer_add_string-Holds, buffer_read-Reads, buffer_read_int32-Reads,
  buffer_read_string-Reads, drop_all,
}
use tpsoaprobado.Utils.Package.{Package, create_package}
use tpsoaprobado.Utils.Package.Wire.{Carries, transfer, transfer-Reads}
use tpsoaprobado.Utils.Dtp.{terminated}
use tpsoaprobado.Utils.Dtp.Control.{
  FetchPackageData, create_fetch_package, read_fetch_package, DispatchPackageData,
  create_dispatch_package, read_dispatch_package, IoOperationPackageData,
  create_io_operation_package, read_io_operation_package, CpuContextPackageData,
  create_cpu_context_package, read_cpu_context_package, create_interrupt_package,
  read_interrupt_package, create_kill_process_package, read_kill_process_package,
  create_dump_memory_package, read_dump_memory_package, create_swap_operation_package,
  read_swap_package, of_bool, create_confirmation_package, read_confirmation_package,
}
use tpsoaprobado.Utils.Dtp.Memory.{
  PageEntryRequestData, create_page_entry_request_package, read_page_entry_request_package,
  PageEntryResponseData, create_page_entry_response_package, read_page_entry_response_package,
  MemoryReadRequest, memory_read_request_package, read_memory_read_request,
  create_package_memory_read_response, read_memory_read_response, MemoryWriteRequest,
  memory_write_request_package, read_memory_write_request,
}
use tpsoaprobado.Utils.Dtp.Syscall.{
  SyscallParams, init_proc, io, dump_memory, exit, unknown, SyscallPackageData, syscall_type,
  create_syscall_package, read_params, read_syscall_package, create_init_process_package,
  read_init_process_package, InitProcessPackageData, create_instruction_package,
  read_instruction_package, create_new_io_package, read_new_io_package, IoCompletionPackageData,
  create_io_completion_package, read_io_completion_package,
}

abbrev pub IsWord : ℕ → Type 0
IsWord x = x < 2 ^ 32

-- Packages of one, two and three int32_t.
pub one_int :
    (op x : ℕ)
    → Carries (create_package op (buffer_add_int32 (buffer_create 4) x)) op (int32_bytes x)
unfolding create_package
one_int op x = (refl, buffer_add_int32-Holds _ x _ _ (buffer_create-Holds 4))

pub two_ints :
    (op x y : ℕ)
    → Carries
        (create_package op (buffer_add_int32 (buffer_add_int32 (buffer_create 8) x) y))
        op
        (int32_bytes x ++ int32_bytes y)
unfolding create_package
two_ints op x y =
    (refl, buffer_add_int32-Holds _ y _ _ (buffer_add_int32-Holds _ x _ _ (buffer_create-Holds 8)))

pub Reads-two :
    {A : Type 0} (f : ℕ → ℕ → A) (x y : ℕ)
    → IsWord x
    → IsWord y
    → Reads
        (buffer_read_int32 >>= λ a. buffer_read_int32 >>= λ b. return (f a b))
        (int32_bytes x ++ int32_bytes y)
        (f x y)
Reads-two f x y hx hy =
    Reads->>= buffer_read_int32 _ (int32_bytes x) (int32_bytes y) x (f x y)
      (buffer_read_int32-Reads x hx)
      (Reads-last buffer_read_int32 (f x) (int32_bytes y) y (buffer_read_int32-Reads y hy))

pub Reads-three :
    {A : Type 0} (f : ℕ → ℕ → ℕ → A) (x y z : ℕ)
    → IsWord x
    → IsWord y
    → IsWord z
    → Reads
        (buffer_read_int32 >>= λ a.
          buffer_read_int32 >>= λ b. buffer_read_int32 >>= λ c. return (f a b c))
        (int32_bytes x ++ (int32_bytes y ++ int32_bytes z))
        (f x y z)
Reads-three f x y z hx hy hz =
    Reads->>= buffer_read_int32 _ (int32_bytes x) (int32_bytes y ++ int32_bytes z) x (f x y z)
      (buffer_read_int32-Reads x hx) (Reads-two (f x) y z hy hz)

-- The packages of two int32_t (a fetch, a dispatch, an operation of a device) arrive as they were
-- sent.
pub pair_packages_arrive :
    (x y : ℕ)
    → x < 2 ^ 32
    → y < 2 ^ 32
    → (transfer (create_fetch_package x y) read_fetch_package ≡ some (record { pid = x; pc = y }))
      × (transfer (create_dispatch_package x y) read_dispatch_package
          ≡ some (record { pid = x; pc = y }))
      × (transfer (create_io_operation_package x y) read_io_operation_package
          ≡ some (record { pid = x; sleep_time = y }))
unfolding create_fetch_package read_fetch_package create_dispatch_package read_dispatch_package
    create_io_operation_package read_io_operation_package
pair_packages_arrive x y hx hy = (
  transfer-Reads _ 0 (int32_bytes x ++ int32_bytes y) _ _ (two_ints 0 x y) (omega arith)
      (omega arith) (omega arith) (Reads-two _ x y hx hy),
  transfer-Reads _ 16 (int32_bytes x ++ int32_bytes y) _ _ (two_ints 16 x y) (omega arith)
      (omega arith) (omega arith) (Reads-two _ x y hx hy),
  transfer-Reads _ 19 (int32_bytes x ++ int32_bytes y) _ _ (two_ints 19 x y) (omega arith)
      (omega arith) (omega arith) (Reads-two _ x y hx hy),
)

-- The packages of one int32_t pid (an interrupt, a kill, a dump, a swap operation of whichever
-- int32_t opcode) arrive as they were sent.
pub pid_packages_arrive :
    (x operation : ℕ)
    → x < 2 ^ 32
    → operation < 2 ^ 32
    → (transfer (create_interrupt_package x) read_interrupt_package ≡ some x)
      × (transfer (create_kill_process_package x) read_kill_process_package ≡ some x)
      × (transfer (create_dump_memory_package x) read_dump_memory_package ≡ some x)
      × (transfer (create_swap_operation_package x operation) read_swap_package ≡ some x)
unfolding create_interrupt_package read_interrupt_package create_kill_process_package
    read_kill_process_package create_dump_memory_package read_dump_memory_package
    create_swap_operation_package read_swap_package
pid_packages_arrive x operation hx ho = (
  arrives 17 (omega arith),
  arrives 6 (omega arith),
  arrives 10 (omega arith),
  arrives operation ho,
)
  where
    arrives :
        (op : ℕ)
        → op < 2 ^ 32
        → transfer (create_package op (buffer_add_int32 (buffer_create 4) x)) buffer_read_int32
          ≡ some x
    arrives op h =
        transfer-Reads _ op (int32_bytes x) _ x (one_int op x) h (omega arith) (omega arith)
          (buffer_read_int32-Reads x hx)

-- A confirmation arrives with the answer that was sent.
pub confirmation_arrives :
    (success : Bool)
    → transfer (create_confirmation_package success) read_confirmation_package ≡ some success
unfolding create_confirmation_package read_confirmation_package
confirmation_arrives true =
    transfer-Reads _ 12 (int32_bytes 1) _ true (one_int 12 1) (omega arith) (omega arith)
      (omega arith)
      (Reads-last buffer_read_int32 (λ v. not (v == 0)) (int32_bytes 1) 1
        (buffer_read_int32-Reads 1 (omega arith)))
confirmation_arrives false =
    transfer-Reads _ 12 (int32_bytes 0) _ false (one_int 12 0) (omega arith) (omega arith)
      (omega arith)
      (Reads-last buffer_read_int32 (λ v. not (v == 0)) (int32_bytes 0) 0
        (buffer_read_int32-Reads 0 (omega arith)))

-- The context of an interrupted CPU, of three int32_t, arrives as it was sent, though its buffer
-- was created for two of them.
pub cpu_context_arrives :
    (x y z : ℕ)
    → x < 2 ^ 32
    → y < 2 ^ 32
    → z < 2 ^ 32
    → transfer (create_cpu_context_package x y z) read_cpu_context_package
      ≡ some (record { pid = x; pc = y; interrupted_same_pid = z })
unfolding create_cpu_context_package read_cpu_context_package create_package
cpu_context_arrives x y z hx hy hz =
    transfer-Reads _ 18 (int32_bytes x ++ (int32_bytes y ++ int32_bytes z)) _ _
      (refl, buffer_add_int32-Holds _ z _ _ (two_ints 18 x y).1) (omega arith) (omega arith)
      (omega arith) (Reads-three _ x y z hx hy hz)
