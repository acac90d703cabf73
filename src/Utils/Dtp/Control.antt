-- ===== src/Utils/Dtp/Control.antt =====
-- The packages by which the kernel, the CPUs and the devices control one another: all of them are
-- one to three int32_t.
use tpsoaprobado.Base.{ℕ, Bool, true, false, not, ◌==◌}
use tpsoaprobado.Utils.Enums.Opcode
use tpsoaprobado.Utils.Buffer.{
  Reader, buffer_create, buffer_add_int32, buffer_read_int32, return, ◌>>=◌,
}
use tpsoaprobado.Utils.Package.{Package, create_package}

pub record FetchPackageData : Type 0 where
  pub pid : ℕ
  pub pc : ℕ

unfoldable pub create_fetch_package : ℕ → ℕ → Package
create_fetch_package pid pc =
    create_package Opcode.fetch (buffer_add_int32 (buffer_add_int32 (buffer_create 8) pid) pc)

unfoldable pub read_fetch_package : Reader FetchPackageData
read_fetch_package = do
  pid ← buffer_read_int32
  pc ← buffer_read_int32
  return (record { pid = pid; pc = pc })

pub record DispatchPackageData : Type 0 where
  pub pid : ℕ
  pub pc : ℕ

unfoldable pub create_dispatch_package : ℕ → ℕ → Package
create_dispatch_package pid pc =
    create_package Opcode.dispatch (buffer_add_int32 (buffer_add_int32 (buffer_create 8) pid) pc)

unfoldable pub read_dispatch_package : Reader DispatchPackageData
read_dispatch_package = do
  pid ← buffer_read_int32
  pc ← buffer_read_int32
  return (record { pid = pid; pc = pc })

pub record IoOperationPackageData : Type 0 where
  pub pid : ℕ
  pub sleep_time : ℕ

unfoldable pub create_io_operation_package : ℕ → ℕ → Package
create_io_operation_package pid time =
    create_package Opcode.io_operation
      (buffer_add_int32 (buffer_add_int32 (buffer_create 8) pid) time)

unfoldable pub read_io_operation_package : Reader IoOperationPackageData
read_io_operation_package = do
  pid ← buffer_read_int32
  sleep_time ← buffer_read_int32
  return (record { pid = pid; sleep_time = sleep_time })

pub record CpuContextPackageData : Type 0 where
  pub pid : ℕ
  pub pc : ℕ
  pub interrupted_same_pid : ℕ

-- The buffer is created for two of the three numbers, and grows for the last.
unfoldable pub create_cpu_context_package : ℕ → ℕ → ℕ → Package
create_cpu_context_package pid pc interrupted_same_pid = create_package Opcode.cpu_context (
    buffer_add_int32 (buffer_add_int32 (buffer_add_int32 (buffer_create 8) pid) pc)
      interrupted_same_pid)

unfoldable pub read_cpu_context_package : Reader CpuContextPackageData
read_cpu_context_package = do
  pid ← buffer_read_int32
  pc ← buffer_read_int32
  interrupted_same_pid ← buffer_read_int32
  return (record { pid = pid; pc = pc; interrupted_same_pid = interrupted_same_pid })

unfoldable pub create_interrupt_package : ℕ → Package
create_interrupt_package pid =
    create_package Opcode.interrupt (buffer_add_int32 (buffer_create 4) pid)

unfoldable pub read_interrupt_package : Reader ℕ
read_interrupt_package = buffer_read_int32

unfoldable pub create_kill_process_package : ℕ → Package
create_kill_process_package pid =
    create_package Opcode.kill_process (buffer_add_int32 (buffer_create 4) pid)

unfoldable pub read_kill_process_package : Reader ℕ
read_kill_process_package = buffer_read_int32

unfoldable pub create_dump_memory_package : ℕ → Package
create_dump_memory_package pid =
    create_package Opcode.c_dump_memory (buffer_add_int32 (buffer_create 4) pid)

unfoldable pub read_dump_memory_package : Reader ℕ
read_dump_memory_package = buffer_read_int32

-- `operation` is SWAP or UNSUSPEND_PROCESS.
unfoldable pub create_swap_operation_package : ℕ → ℕ → Package
create_swap_operation_package pid operation =
    create_package operation (buffer_add_int32 (buffer_create 4) pid)

unfoldable pub read_swap_package : Reader ℕ
read_swap_package = buffer_read_int32

abbrev pub of_bool : Bool → ℕ
of_bool true = 1
of_bool false = 0

unfoldable pub create_confirmation_package : Bool → Package
create_confirmation_package success =
    create_package Opcode.confirmation (buffer_add_int32 (buffer_create 4) (of_bool success))

unfoldable pub read_confirmation_package : Reader Bool
read_confirmation_package = do success ← buffer_read_int32; return (not (success == 0))
