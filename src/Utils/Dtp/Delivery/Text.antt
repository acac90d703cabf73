-- ===== src/Utils/Dtp/Delivery/Text.antt =====
-- The packages that carry text, over the wire.
use tpsoaprobado.Base.{
  ℕ, ◌+◌, ◌-◌, ◌^◌, ◌<◌, ◌≤◌, ◌≡◌, refl, sym, Option, none, some, List, [], ◌∷◌, ◌++◌, append_assoc,
  append-nil, subst, arith, length, drop, replicate, length-append, length-replicate, length-drop,
}
use tpsoaprobado.Utils.Buffer.{
  Buffer, buffer_create, buffer_add_int32, buffer_add_string, int32_bytes, buffer_read_int32,
  buffer_read_string, return,
}
use tpsoaprobado.Utils.Buffer.Laws.{
  Holds, Reads, Reads->>=, Reads-last, Reads-return, buffer_create-Holds, buffer_add_int32-Holds,
  buffer_add_string-Holds, buffer_read_int32-Reads, buffer_read_string-Reads, buffer_add_string-end,
  Holds-spent,
}
use tpsoaprobado.Utils.Package.{create_package}
use tpsoaprobado.Utils.Package.Wire.{transfer, transfer-Reads}
use tpsoaprobado.Utils.Dtp.{terminated}
use tpsoaprobado.Utils.Dtp.Syscall.{
  SyscallParams, init_proc, io, dump_memory, exit, unknown, SyscallPackageData, syscall_type,
  add_params, create_syscall_package, read_params, read_syscall_package, path_bytes, path_len,
  create_init_process_package, read_init_process_package, create_instruction_package,
  read_instruction_package, create_new_io_package, read_new_io_package,
  create_io_completion_package, read_io_completion_package,
}

-- The string that arrives has its terminator.
abbrev pub arrived : SyscallParams → SyscallParams
arrived (init_proc file space) = init_proc (terminated file) space
arrived (io device time) = io (terminated device) time
arrived dump_memory = dump_memory
arrived exit = exit
arrived (unknown code) = unknown code

-- The numbers are words and the strings shorter than a gigabyte; a code of no system call is
-- outside the enumeration.
abbrev pub Fits : SyscallParams → Type 0
Fits (init_proc file space) = (length file < 2 ^ 30) × (space < 2 ^ 32)
Fits (io device time) = (length device < 2 ^ 30) × (time < 2 ^ 32)
Fits dump_memory = Unit {0}
Fits exit = Unit {0}
Fits (unknown code) = (4 ≤ code) × (code < 2 ^ 32)

pub length-terminated : (s : List ℕ) → length (terminated s) ≡ length s + 1
length-terminated s = length-append s (0 ∷ [])

abbrev body : SyscallParams → List ℕ
body (init_proc file space) =
    int32_bytes space ++ (int32_bytes (length (terminated file)) ++ terminated file)
body (io device time) =
    int32_bytes (length (terminated device)) ++ (terminated device ++ int32_bytes time)
body dump_memory = []
body exit = []
body (unknown code) = []

unknown_params : (code : ℕ) → 4 ≤ code → read_params code ≡ return (unknown code)
unknown_params code h = ground arith

Reads-params :
    (p : SyscallParams) → Fits p → Reads (read_params (syscall_type p)) (body p) (arrived p)
Reads-params (init_proc file space) (hf, hs) =
    Reads->>= buffer_read_int32 _ (int32_bytes space) _ space _ (buffer_read_int32-Reads space hs) (
      Reads-last buffer_read_string (λ f. init_proc f space) _ (terminated file)
        (buffer_read_string-Reads (terminated file) (omega (arith, length-terminated file, hf))))
Reads-params (io device time) (hd, ht) =
    Reads->>= buffer_read_string _ (int32_bytes (length (terminated device)) ++ terminated device)
      (int32_bytes time) (terminated device) _
      (buffer_read_string-Reads (terminated device) (omega (arith, length-terminated device, hd)))
      (Reads-last buffer_read_int32 (io (terminated device)) (int32_bytes time) time
        (buffer_read_int32-Reads time ht))
Reads-params dump_memory h = Reads-return dump_memory
Reads-params exit h = Reads-return exit
Reads-params (unknown code) (h, w) =
    subst (λ m. Reads m [] (unknown code)) (sym (unknown_params code h))
      (Reads-return (unknown code))

type_word : (p : SyscallParams) → Fits p → syscall_type p < 2 ^ 32
type_word (init_proc file space) h = omega arith
type_word (io device time) h = omega arith
type_word dump_memory h = omega arith
type_word exit h = omega arith
type_word (unknown code) h = h.1

header : SyscallPackageData → Buffer
header s =
    buffer_add_int32
      (buffer_add_int32 (buffer_add_int32 (buffer_create 12) (syscall_type s.params)) s.pid) s.pc

abbrev header_bytes : SyscallPackageData → List ℕ
header_bytes s = int32_bytes (syscall_type s.params) ++ (int32_bytes s.pid ++ int32_bytes s.pc)

header-Holds : (s : SyscallPackageData) → Holds (header s) (header_bytes s) []
unfolding header
header-Holds s = buffer_add_int32-Holds _ s.pc _ _ (
    buffer_add_int32-Holds _ s.pid _ _
      (buffer_add_int32-Holds _ (syscall_type s.params) _ _ (buffer_create-Holds 12)))

params-Holds :
    (b : Buffer) (w : List ℕ) (p : SyscallParams)
    → Holds b w []
    → Holds (add_params b p) (w ++ body p) []
params-Holds b w (init_proc file space) h =
    subst (λ v. Holds (buffer_add_string (buffer_add_int32 b space) (terminated file)) v [])
      (append_assoc w (int32_bytes space) _)
      (buffer_add_string-end _ (terminated file) (w ++ int32_bytes space)
        (buffer_add_int32-Holds b space w [] h))
params-Holds b w (io device time) h =
    subst (λ v. Holds (buffer_add_int32 (buffer_add_string b (terminated device)) time) v [])
      (append_assoc w _ (int32_bytes time))
      (buffer_add_int32-Holds _ time _ [] (buffer_add_string-end b (terminated device) w h))
params-Holds b w dump_memory h = subst (λ v. Holds b v []) (sym (append-nil w)) h
params-Holds b w exit h = subst (λ v. Holds b v []) (sym (append-nil w)) h
params-Holds b w (unknown code) h = subst (λ v. Holds b v []) (sym (append-nil w)) h

length-body : (p : SyscallParams) → Fits p → length (body p) < 2 ^ 31 - 12
length-body (init_proc file space) h = omega (arith, length-terminated file, h.0)
length-body (io device time) h =
    omega
      (arith, length-terminated device, length-append (terminated device) (int32_bytes time), h.0)
length-body dump_memory h = omega arith
length-body exit h = omega arith
length-body (unknown code) h = omega arith

-- Every system call arrives with the pid, the program counter and the parameters that were sent,
-- its strings terminated; so does a type that is no system call. (The numbers are int32_t, the
-- strings shorter than 2 ^ 30 bytes.)
pub syscall_arrives :
    (s : SyscallPackageData)
    → s.pid < 2 ^ 32
    → s.pc < 2 ^ 32
    → Fits s.params
    → transfer (create_syscall_package s) read_syscall_package
      ≡ some (record s { params = arrived s.params })
unfolding create_syscall_package read_syscall_package create_package header
syscall_arrives s hp hc fits =
    transfer-Reads _ 15 (header_bytes s ++ body s.params) _ _
      (refl, params-Holds (header s) (header_bytes s) s.params (header-Holds s)) (omega arith)
      (omega arith) (omega (arith, length-body s.params fits))
      (Reads->>= buffer_read_int32 _ (int32_bytes (syscall_type s.params))
        (int32_bytes s.pid ++ (int32_bytes s.pc ++ body s.params)) (syscall_type s.params) _
        (buffer_read_int32-Reads (syscall_type s.params) (type_word s.params fits))
        (Reads->>= buffer_read_int32 _ (int32_bytes s.pid) (int32_bytes s.pc ++ body s.params) s.pid
          _ (buffer_read_int32-Reads s.pid hp)
          (Reads->>= buffer_read_int32 _ (int32_bytes s.pc) (body s.params) s.pc _
            (buffer_read_int32-Reads s.pc hc)
            (Reads-last (read_params (syscall_type s.params)) (λ p. record s { params = p })
              (body s.params) (arrived s.params) (Reads-params s.params fits)))))

-- The length that precedes the path takes the place of four of the bytes that were set aside.
room_covered :
    (path : Option (List ℕ))
    → length (drop 4 (drop 4 (drop 4 (replicate {A = ℕ} (8 + path_len path) 0))))
      ≤ length (path_bytes path)
room_covered none = omega arith
room_covered (some p) =
    let room = replicate {A = ℕ} (8 + length (terminated p)) 0 in
    omega (
      arith,
      length-drop 4 (drop 4 (drop 4 room)),
      length-drop 4 (drop 4 room),
      length-drop 4 room,
      length-replicate {A = ℕ} (8 + length (terminated p)) 0,
    )

-- The request to create a process arrives with its pid, its size and its path, terminated; a NULL
-- path arrives as no byte at all. (The numbers are int32_t, the path shorter than 2 ^ 30 bytes.)
pub init_process_arrives :
    (pid size : ℕ) (path : Option (List ℕ))
    → pid < 2 ^ 32
    → size < 2 ^ 32
    → length (path_bytes path) < 2 ^ 30
    → transfer (create_init_process_package pid size path) read_init_process_package
      ≡ some (record { pid = pid; size = size; pseudocode_path = path_bytes path })
unfolding create_init_process_package read_init_process_package create_package
init_process_arrives pid size path hp hs short =
    let bytes = path_bytes path in
    let room = replicate {A = ℕ} (8 + path_len path) 0 in
    let holds =
      Holds-spent _ _ (drop 4 (drop 4 (drop 4 room))) (length bytes)
        (buffer_add_string-Holds _ bytes _ _ (
          buffer_add_int32-Holds _ size _ _
            (buffer_add_int32-Holds _ pid _ _ (buffer_create-Holds (8 + path_len path)))))
        (room_covered path) in
    transfer-Reads _ 4
      (int32_bytes pid ++ (int32_bytes size ++ (int32_bytes (length bytes) ++ bytes))) _ _
      (refl, holds) (omega arith) (omega arith) (omega (arith, short))
      (Reads->>= buffer_read_int32 _ (int32_bytes pid) _ pid _ (buffer_read_int32-Reads pid hp) (
        Reads->>= buffer_read_int32 _ (int32_bytes size) _ size _ (buffer_read_int32-Reads size hs)
          (Reads-last buffer_read_string _ (int32_bytes (length bytes) ++ bytes) bytes
            (buffer_read_string-Reads bytes (omega (arith, short))))))

-- Instructions, device names and completions arrive as the text, terminated, and the pid that
-- were sent. (The text is shorter than 2 ^ 30 bytes, the pid an int32_t.)
pub text_packages_arrive :
    (text : List ℕ) (pid : ℕ)
    → length text < 2 ^ 30
    → pid < 2 ^ 32
    → (transfer (create_instruction_package text) read_instruction_package ≡ some (terminated text))
      × (transfer (create_new_io_package text) read_new_io_package ≡ some (terminated text))
      × (transfer (create_io_completion_package text pid) read_io_completion_package
          ≡ some (record { device_name = terminated text; pid = pid }))
unfolding create_instruction_package read_instruction_package create_new_io_package
    read_new_io_package create_io_completion_package read_io_completion_package create_package
text_packages_arrive text pid short hp = (
  arrives 1 (omega arith),
  arrives 13 (omega arith),
  transfer-Reads _ 14 ((int32_bytes n ++ bytes) ++ int32_bytes pid) _ _ (refl, holds) (omega arith)
      (omega arith) (omega (arith, size, length-append bytes (int32_bytes pid)))
      (Reads->>= buffer_read_string _ (int32_bytes n ++ bytes) (int32_bytes pid) bytes _
        (buffer_read_string-Reads bytes (omega (arith, size)))
        (Reads-last buffer_read_int32 (λ p. record { device_name = bytes; pid = p })
          (int32_bytes pid) pid (buffer_read_int32-Reads pid hp))),
)
  where
    bytes : List ℕ
    bytes = terminated text

    n : ℕ
    n = length bytes

    size : n < 2 ^ 30 + 1
    size = omega (arith, length-terminated text, short)

    arrives :
        (op : ℕ)
        → op < 2 ^ 32
        → transfer
            (create_package op (buffer_add_string (buffer_create 0) bytes))
            buffer_read_string
          ≡ some bytes
    arrives op h =
        transfer-Reads _ op (int32_bytes n ++ bytes) _ bytes
          (refl, buffer_add_string-end _ bytes [] (buffer_create-Holds 0)) h (omega arith)
          (omega (arith, size)) (buffer_read_string-Reads bytes (omega (arith, size)))

    room : List ℕ
    room = replicate (n + 4) 0

    holds :
        Holds
          (buffer_add_int32 (buffer_add_string (buffer_create (n + 4)) bytes) pid)
          ((int32_bytes n ++ bytes) ++ int32_bytes pid)
          []
    holds =
        Holds-spent _ _ (drop n (drop 4 room)) 4
          (buffer_add_int32-Holds _ pid _ _
            (buffer_add_string-Holds _ bytes _ _ (buffer_create-Holds (n + 4))))
          (omega (
            arith,
            length-drop n (drop 4 room),
            length-drop 4 room,
            length-replicate {A = ℕ} (n + 4) 0,
          ))
