-- ===== src/Utils/Dtp.antt =====
-- utils/src/utils/DTPs: the packages, each with the function that builds it and the one that reads
-- it. A C string is the list of its bytes without the terminator, which `terminated` adds.
pub mod Control
pub mod Memory
pub mod Syscall
pub mod Delivery
use tpsoaprobado.Base.{ℕ, List, [], ◌∷◌, ◌++◌, ◌==◌, if◌then◌else◌}

-- The `strlen(s) + 1` bytes of a string.
abbrev pub terminated : List ℕ → List ℕ
terminated s = s ++ 0 ∷ []

-- A C string in an array ends at the first zero.
unfoldable pub c_string : List ℕ → List ℕ
c_string [] = []
c_string (c ∷ cs) = let rest = c_string cs in if c == 0 then [] else c ∷ rest
