-- ===== src/Cpu/Instruction.antt =====
-- The instructions of a process as text: utils/src/enums/Einstruction_codes.c, and `decode` and
-- `parse_instruction` of cpu/src/instructionCycle.c. A C string is the list of its bytes.
use tpsoaprobado.Base.{
  ℕ, ◌+◌, ◌-◌, ◌*◌, ◌%◌, ◌^◌, Bool, true, false, ◌&&◌, ◌||◌, ◌==◌, Option, none, some, List, [],
  ◌∷◌, leb, if◌then◌else◌, ◌>>=◌,
}
use tpsoaprobado.Utils.Package.{Package, read_package}
use tpsoaprobado.Utils.Dtp.{c_string}
use tpsoaprobado.Utils.Dtp.Syscall.{read_instruction_package}

-- `INSTRUCTION_CODE`.
pub data InstructionCode : Type 0 where
  noop : InstructionCode
  write : InstructionCode
  read : InstructionCode
  goto : InstructionCode
  io : InstructionCode
  init_proc : InstructionCode
  dump_memory : InstructionCode
  exit : InstructionCode
  unknown : InstructionCode

-- The ASCII bytes of the names.
unfoldable pub instruction_code_to_string : InstructionCode → List ℕ
instruction_code_to_string noop = 78 ∷ 79 ∷ 79 ∷ 80 ∷ []
instruction_code_to_string write = 87 ∷ 82 ∷ 73 ∷ 84 ∷ 69 ∷ []
instruction_code_to_string read = 82 ∷ 69 ∷ 65 ∷ 68 ∷ []
instruction_code_to_string goto = 71 ∷ 79 ∷ 84 ∷ 79 ∷ []
instruction_code_to_string io = 73 ∷ 79 ∷ []
instruction_code_to_string init_proc = 73 ∷ 78 ∷ 73 ∷ 84 ∷ 95 ∷ 80 ∷ 82 ∷ 79 ∷ 67 ∷ []
instruction_code_to_string dump_memory = 68 ∷ 85 ∷ 77 ∷ 80 ∷ 95 ∷ 77 ∷ 69 ∷ 77 ∷ 79 ∷ 82 ∷ 89 ∷ []
instruction_code_to_string exit = 69 ∷ 88 ∷ 73 ∷ 84 ∷ []
instruction_code_to_string unknown = 85 ∷ 78 ∷ 75 ∷ 78 ∷ 79 ∷ 87 ∷ 78 ∷ []

-- `tolower` and `strcasecmp`.
abbrev pub lower : ℕ → ℕ
lower c = if leb 65 c && leb c 90 then c + 32 else c

unfoldable pub same_letters : List ℕ → List ℕ → Bool
same_letters [] [] = true
same_letters [] (d ∷ ds) = false
same_letters (c ∷ cs) [] = false
same_letters (c ∷ cs) (d ∷ ds) = (lower c == lower d) && same_letters cs ds

-- `instruction_code_names`, with the codes that the indices stand for.
abbrev pub instruction_codes : List InstructionCode
instruction_codes = noop ∷ write ∷ read ∷ goto ∷ io ∷ init_proc ∷ dump_memory ∷ exit ∷ []

unfoldable pub find_code : List ℕ → List InstructionCode → InstructionCode
unfolding same_letters instruction_code_to_string
find_code name [] = unknown
find_code name (c ∷ cs) =
    let later = find_code name cs in
    if same_letters name (instruction_code_to_string c) then c else later

unfoldable pub string_to_instruction_code : List ℕ → InstructionCode
unfolding find_code
string_to_instruction_code name = find_code name instruction_codes

-- `t_instruction`. The size of the string is its length.
pub record Instruction : Type 0 where
  pub instruction_code : InstructionCode
  pub operand_numeric1 : ℕ
  pub operand_numeric2 : ℕ
  pub operand_string : List ℕ

-- What `safe_calloc` gives: the code 0 is NOOP.
abbrev pub zeroed : Instruction
zeroed = record {
  instruction_code = noop;
  operand_numeric1 = 0;
  operand_numeric2 = 0;
  operand_string = [];
}

-- `strtok_r` on spaces: the next token and what is left; `none` is NULL.
unfoldable pub skip_spaces : List ℕ → List ℕ
skip_spaces [] = []
skip_spaces (c ∷ cs) = let rest = skip_spaces cs in if c == 32 then rest else c ∷ cs

unfoldable pub split_token : List ℕ → List ℕ × List ℕ
split_token [] = ([], [])
split_token (c ∷ cs) =
    let (token, rest) = split_token cs in if c == 32 then ([], cs) else (c ∷ token, rest)

abbrev pub first_token : List ℕ → Option (List ℕ × List ℕ)
first_token [] = none
first_token (c ∷ cs) = some (split_token (c ∷ cs))

unfoldable pub strtok : List ℕ → Option (List ℕ × List ℕ)
unfolding skip_spaces split_token
strtok s = first_token (skip_spaces s)

-- `atoi`: blanks, a sign, and digits up to the first byte that is none. Past an int it is
-- undefined; here it wraps.
unfoldable pub digits : ℕ → List ℕ → ℕ
digits n [] = n
digits n (c ∷ cs) =
    let rest = digits (10 * n + (c - 48)) cs in if leb 48 c && leb c 57 then rest else n

abbrev pub is_space : ℕ → Bool
is_space c = (c == 32) || (leb 9 c && leb c 13)

abbrev pub signed : List ℕ → ℕ
signed [] = 0
signed (c ∷ cs) =
    if c == 45
    then (2 ^ 32 - digits 0 cs % 2 ^ 32) % 2 ^ 32
    else if c == 43
    then digits 0 cs % 2 ^ 32
    else digits 0 (c ∷ cs) % 2 ^ 32

unfoldable pub atoi : List ℕ → ℕ
unfolding digits
atoi [] = 0
atoi (c ∷ cs) = let rest = atoi cs in if is_space c then rest else signed (c ∷ cs)

-- A number and a string from the tokens that are left; with none left the code reads through NULL.
abbrev pub number : List ℕ → Option (ℕ × List ℕ)
number s = strtok s >>= λ (token, rest). some (atoi token, rest)

-- The operands, by the switch of `parse_instruction`.
unfoldable pub parse_operands : InstructionCode → List ℕ → Option Instruction
unfolding strtok atoi
parse_operands noop s = some zeroed
parse_operands dump_memory s = some (record zeroed { instruction_code = dump_memory })
parse_operands exit s = some (record zeroed { instruction_code = exit })
parse_operands unknown s = some (record zeroed { instruction_code = unknown })
parse_operands write s = do
  (address, rest) ← number s
  (value, _) ← strtok rest
  some (record {
    instruction_code = write;
    operand_numeric1 = address;
    operand_numeric2 = 0;
    operand_string = value;
  })
parse_operands read s = do
  (address, rest) ← number s
  (size, _) ← number rest
  some (record {
    instruction_code = read;
    operand_numeric1 = address;
    operand_numeric2 = size;
    operand_string = [];
  })
parse_operands goto s = do
  (target, _) ← number s
  some (record zeroed { instruction_code = goto; operand_numeric1 = target })
parse_operands io s = do
  (device, rest) ← strtok s
  (time, _) ← number rest
  some (record {
    instruction_code = io;
    operand_numeric1 = time;
    operand_numeric2 = 0;
    operand_string = device;
  })
parse_operands init_proc s = do
  (file, rest) ← strtok s
  (space, _) ← number rest
  some (record {
    instruction_code = init_proc;
    operand_numeric1 = space;
    operand_numeric2 = 0;
    operand_string = file;
  })

abbrev pub parse_tokens : Option (List ℕ × List ℕ) → Option Instruction
parse_tokens none = some zeroed
parse_tokens (some (name, rest)) = parse_operands (string_to_instruction_code name) rest

-- `parse_instruction` on a new instruction; `none`: an operand is missing.
unfoldable pub parse_instruction : List ℕ → Option Instruction
unfolding string_to_instruction_code strtok parse_operands
parse_instruction instruction_string = parse_tokens (strtok instruction_string)

-- `decode`. `none` also stands for a package whose string is indeterminate.
unfoldable pub decode : Package → Option Instruction
unfolding parse_instruction c_string
decode p = read_package read_instruction_package p >>= λ s. parse_instruction (c_string s)
