-- ===== src/Utils/Dtp/Syscall.antt =====
-- The packages that carry text: system calls, process creation, instructions, device names.
use tpsoaprobado.Base.{ℕ, ◌+◌, List, [], Option, none, some, length, if◌then◌else◌, ◌==◌}
use tpsoaprobado.Utils.Enums.Opcode
use tpsoaprobado.Utils.Enums.SyscallType
use tpsoaprobado.Utils.Buffer.{
  Buffer, Reader, buffer_create, buffer_add_int32, buffer_add_string, buffer_read_int32,
  buffer_read_string, return, ◌>>=◌,
}
use tpsoaprobado.Utils.Package.{Package, create_package}
use tpsoaprobado.Utils.Dtp.{terminated}

-- `syscall_package_data`: the type with the member of the union that it selects. `unknown` is any
-- other type, which has no parameters.
pub data SyscallParams : Type 0 where
  init_proc : List ℕ → ℕ → SyscallParams
  io : List ℕ → ℕ → SyscallParams
  dump_memory : SyscallParams
  exit : SyscallParams
  unknown : ℕ → SyscallParams

pub record SyscallPackageData : Type 0 where
  pub pid : ℕ
  pub pc : ℕ
  pub params : SyscallParams

abbrev pub syscall_type : SyscallParams → ℕ
syscall_type (init_proc file space) = SyscallType.init_proc
syscall_type (io device time) = SyscallType.io
syscall_type dump_memory = SyscallType.dump_memory
syscall_type exit = SyscallType.exit
syscall_type (unknown code) = code

abbrev pub add_params : Buffer → SyscallParams → Buffer
add_params b (init_proc file space) = buffer_add_string (buffer_add_int32 b space) (terminated file)
add_params b (io device time) = buffer_add_int32 (buffer_add_string b (terminated device)) time
add_params b dump_memory = b
add_params b exit = b
add_params b (unknown code) = b

unfoldable pub create_syscall_package : SyscallPackageData → Package
create_syscall_package syscall = create_package Opcode.syscall (
    add_params
      (buffer_add_int32
        (buffer_add_int32 (buffer_add_int32 (buffer_create 12) (syscall_type syscall.params))
          syscall.pid)
        syscall.pc)
      syscall.params)

-- The strings that come back are the bytes read, terminator included.
abbrev pub read_params : ℕ → Reader SyscallParams
read_params code =
    if code == SyscallType.init_proc
    then (buffer_read_int32 >>= λ space.
        buffer_read_string >>= λ file. return (init_proc file space))
    else if code == SyscallType.io
    then (buffer_read_string >>= λ device. buffer_read_int32 >>= λ time. return (io device time))
    else if code == SyscallType.dump_memory
    then return dump_memory
    else if code == SyscallType.exit
    then return exit
    else return (unknown code)

unfoldable pub read_syscall_package : Reader SyscallPackageData
read_syscall_package = do
  code ← buffer_read_int32
  pid ← buffer_read_int32
  pc ← buffer_read_int32
  params ← read_params code
  return (record { pid = pid; pc = pc; params = params })

pub record InitProcessPackageData : Type 0 where
  pub pid : ℕ
  pub size : ℕ
  pub pseudocode_path : List ℕ

-- `none` is the NULL path.
abbrev pub path_bytes : Option (List ℕ) → List ℕ
path_bytes none = []
path_bytes (some path) = terminated path

abbrev pub path_len : Option (List ℕ) → ℕ
path_len none = 1
path_len (some path) = length (terminated path)

unfoldable pub create_init_process_package : ℕ → ℕ → Option (List ℕ) → Package
create_init_process_package pid size path = create_package Opcode.init_process (
    buffer_add_string
      (buffer_add_int32 (buffer_add_int32 (buffer_create (8 + path_len path)) pid) size)
      (path_bytes path))

unfoldable pub read_init_process_package : Reader InitProcessPackageData
read_init_process_package = do
  pid ← buffer_read_int32
  size ← buffer_read_int32
  path ← buffer_read_string
  return (record { pid = pid; size = size; pseudocode_path = path })

unfoldable pub create_instruction_package : List ℕ → Package
create_instruction_package instruction =
    create_package Opcode.instruction (buffer_add_string (buffer_create 0) (terminated instruction))

unfoldable pub read_instruction_package : Reader (List ℕ)
read_instruction_package = buffer_read_string

unfoldable pub create_new_io_package : List ℕ → Package
create_new_io_package device_name =
    create_package Opcode.new_io (buffer_add_string (buffer_create 0) (terminated device_name))

unfoldable pub read_new_io_package : Reader (List ℕ)
read_new_io_package = buffer_read_string

pub record IoCompletionPackageData : Type 0 where
  pub device_name : List ℕ
  pub pid : ℕ

unfoldable pub create_io_completion_package : List ℕ → ℕ → Package
create_io_completion_package device_name pid = create_package Opcode.io_completion (
    buffer_add_int32
      (buffer_add_string (buffer_create (length (terminated device_name) + 4))
        (terminated device_name))
      pid)

unfoldable pub read_io_completion_package : Reader IoCompletionPackageData
read_io_completion_package = do
  device_name ← buffer_read_string
  pid ← buffer_read_int32
  return (record { device_name = device_name; pid = pid })
