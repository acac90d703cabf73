-- ===== src/Cpu/Mmu/Walk.antt =====
-- The page walk of cpu/src/mmu.c over the tables of memoria/src/kernel_space/page_table.c: asking
-- the memory by table id is following the pointers of the tree.
use tpsoaprobado.Base.{
  ℕ, zero, suc, ◌/◌, ◌%◌, ◌^◌, ◌≤◌, ◌<◌, ◌≡◌, inl, inr, refl, sym, ap, ◌∙◌, ◌==◌, Option, none,
  some, if◌then◌else◌, arith, Bool-cases, ==→eq, int32_div, int32_mod, int32_div-positive,
  int32_mod-positive,
}
use native.Mathlib.Nat.{mod-lt, div-le_self}
use tpsoaprobado.Memoria.PageTable.{
  Table, table, Entries, nil, cons, Entry, entries, num_entries, get_entry, find_table_by_id,
  next_table, entry_response, table_response, page_entry_response, invalid_frame_number,
}
use tpsoaprobado.Memoria.PageTable.Shape.{InRow, LeafOf, NodeOf, Shaped, Shaped-lt}
use tpsoaprobado.Memoria.PageTable.Search.{find-root, find-nodes, InRow-child}
use tpsoaprobado.Cpu.Mmu.{MmuConfig, page_walk_from, mmu_perform_page_walk}

-- The frame of a page, by pointers: in each table the entry of the page's digit at that level.
unfoldable pub frame_at : ℕ → ℕ → Option Table → ℕ → ℕ
unfolding get_entry
frame_at num below none page = invalid_frame_number
frame_at num zero (some t) page = (entry_response (get_entry (entries t) (page / num ^ 0 % num))).0
frame_at num (suc below) (some t) page =
    frame_at num below (next_table (get_entry (entries t) (page / num ^ suc below % num))) page

-- `ask` answers for the ids of a tree from the tree.
abbrev Serves : (ℕ → ℕ → ℕ) → Table → ℕ → ℕ → Type 0
Serves ask t lo hi =
    (id index : ℕ)
    → lo ≤ id
    → id < hi
    → ask id index ≡ (table_response (find_table_by_id t id) index).0

-- The digit of a page that is not negative.
digit_at :
    (page divisor num : ℕ)
    → page < 2 ^ 31
    → int32_mod (int32_div page divisor) num ≡ page / divisor % num
digit_at page divisor num h =
    ap (λ q. int32_mod q num) (int32_div-positive page divisor h)
    ∙ int32_mod-positive (page / divisor) num (omega (arith, div-le_self page divisor, h))

walk-zero : (value rest : ℕ) → rest ≡ value → (if value == 0 then 0 else rest) ≡ value
walk-zero value rest e = ground (arith, e)

InRow-num_entries :
    (P : Entry → ℕ → ℕ → Type 0) (n : ℕ) (es : Entries) (lo hi : ℕ)
    → InRow P n es lo hi
    → num_entries es ≡ n
unfolding num_entries
InRow-num_entries P zero nil lo hi h = refl
InRow-num_entries P zero (cons e es) lo hi h = absurd h
InRow-num_entries P (suc n) nil lo hi h = absurd h
InRow-num_entries P (suc n) (cons e es) lo hi (mid, p, rest) =
    ap suc (InRow-num_entries P n es mid hi rest)

-- Within range, the answer is that of the entry.
table_response-entry :
    (id : ℕ) (es : Entries) (index : ℕ)
    → index < num_entries es
    → table_response (some (table id es)) index ≡ entry_response (get_entry es index)
table_response-entry id es index h = ground arith

-- What the root of a tree answers.
Serves-root :
    (ask : ℕ → ℕ → ℕ) (id : ℕ) (es : Entries) (lo hi index : ℕ)
    → Serves ask (table id es) lo hi
    → id ≡ lo
    → lo < hi
    → index < num_entries es
    → ask lo index ≡ (entry_response (get_entry es index)).0
Serves-root ask id es lo hi index serves same some_ids h =
    serves lo index (omega arith) some_ids
    ∙ ap (λ f. (table_response f index).0) (find-root id lo es same)
    ∙ ap (λ (r : ℕ × ℕ). r.0) (table_response-entry id es index h)

positive-rest : (value rest : ℕ) → 0 < value → (if value == 0 then 0 else rest) ≡ rest
positive-rest value rest h = ground arith

-- The step from a table to the one below it.
page_walk_from-step :
    (ask : ℕ → ℕ → ℕ) (num page power id value : ℕ)
    → ask id (int32_mod (int32_div page (num ^ power)) num) ≡ value
    → 0 < value
    → page_walk_from ask num page (suc power) id ≡ page_walk_from ask num page power value
unfolding page_walk_from
page_walk_from-step ask num page power id value answer positive =
    ap (λ v. if v == 0 then 0 else page_walk_from ask num page power v) answer
    ∙ positive-rest value (page_walk_from ask num page power value) positive

walk-frame_at :
    (ask : ℕ → ℕ → ℕ) (num below : ℕ) (t : Table) (lo hi page : ℕ)
    → 0 < num
    → page < 2 ^ 31
    → Shaped num below t lo hi
    → Serves ask t lo hi
    → page_walk_from ask num page (suc below) lo ≡ frame_at num below (some t) page
unfolding page_walk_from frame_at
walk-frame_at ask num zero (table id es) lo hi page some_entries page_pos (e, row) serves =
    walk-zero _ _ refl
    ∙ ap (ask lo) (digit_at page (num ^ 0) num page_pos)
    ∙ Serves-root ask id es lo hi (page / num ^ 0 % num) serves e
        (Shaped-lt num zero (table id es) lo hi (e, row))
        (omega (
          arith,
          InRow-num_entries LeafOf num es (suc lo) hi row,
          mod-lt (page / num ^ 0) some_entries,
        ))
walk-frame_at ask num (suc below) (table id es) lo hi page some_entries page_pos (e, row) serves =
    let digit = page / num ^ suc below % num in
    let at =
      InRow-child num below num es (suc lo) hi digit row
        (mod-lt (page / num ^ suc below) some_entries) in
    let root =
      Serves-root ask id es lo hi digit serves e
        (Shaped-lt num (suc below) (table id es) lo hi (e, row))
        (omega (
          arith,
          InRow-num_entries (NodeOf (Shaped num below)) num es (suc lo) hi row,
          mod-lt (page / num ^ suc below) some_entries,
        )) in
    page_walk_from-step ask num page (suc below) lo at.first
      (ap (ask lo) (digit_at page (num ^ suc below) num page_pos)
        ∙ root
        ∙ ap (λ found. (entry_response found).0) at.entry)
      (omega (arith, at.from))
    ∙ walk-frame_at ask num below at.child at.first at.end page some_entries page_pos at.shaped
        (λ target index l k.
          serves target index (omega (arith, at.from, l)) (omega (arith, at.to, k))
          ∙ ap (λ f. (table_response f index).0)
              (find-nodes (Shaped num below) num id (suc lo) hi target es row
                  (omega (arith, e, at.from, l))
                ∙ at.search target l k))
    ∙ ap (λ found. frame_at num below (next_table found) page) (sym at.entry)

page_entry_response-find :
    (root : Table) (id index : ℕ)
    → (page_entry_response root id index) ≡ table_response (find_table_by_id root id) index
unfolding page_entry_response
page_entry_response-find (table own es) id index = elim (Bool-cases (own == id)) [
  | inl same ↦
      ap
        (λ b.
          table_response (if b then some (table own es) else find_table_by_id (table own es) id)
            index)
        same
      ∙ ap (λ f. table_response f index) (sym (find-root own id es (==→eq own id same)))
  | inr other ↦
      ap
        (λ b.
          table_response (if b then some (table own es) else find_table_by_id (table own es) id)
            index)
        other
]

-- In a tree of the shape that is created for the configured entries and levels (at least one of
-- each), whatever frames its leaves hold, the walk of the CPU, which asks the memory module for
-- an entry by table id and index, gets the frame that the pointers of the tree lead to. (The
-- page is not negative, and the powers of the number of entries fit in an int32_t.)
pub mmu_perform_page_walk-frame_at :
    (config : MmuConfig) (below : ℕ) (root : Table) (end page_number : ℕ)
    → 0 < config.entries_per_table
    → config.entries_per_table ^ below < 2 ^ 31
    → page_number < 2 ^ 31
    → config.page_table_levels ≡ suc below
    → Shaped config.entries_per_table below root 1 end
    → mmu_perform_page_walk config (λ id index. (page_entry_response root id index).0) page_number
      ≡ frame_at config.entries_per_table below (some root) page_number
unfolding mmu_perform_page_walk
mmu_perform_page_walk-frame_at config below root end page_number some_entries powers page_pos levels
      shaped =
    ap
      (λ n.
        page_walk_from (λ id index. (page_entry_response root id index).0) config.entries_per_table
          page_number n 1)
      levels
    ∙ walk-frame_at (λ id index. (page_entry_response root id index).0) config.entries_per_table
        below root 1 end page_number some_entries page_pos shaped
        (λ id index l k. ap (λ (r : ℕ × ℕ). r.0) (page_entry_response-find root id index))
