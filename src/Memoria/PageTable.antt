-- ===== src/Memoria/PageTable.antt =====
-- Multi-level page tables: memoria/src/kernel_space/page_table.c, assign-frames-to-process.c and
-- memoria/src/client/get-page-entry/get-page-entry.c. An int32_t is its bit pattern. A pointer to a
-- table inside a page table is its address: the indices of the entries on the way from the root.
pub mod Shape
pub mod Search
pub mod Walk
pub mod Collection
use mathlib.Core.Option
use tpsoaprobado.Base.{
  ℕ, zero, suc, ◌+◌, ◌-◌, ◌*◌, ◌^◌, Bool, true, false, ◌==◌, Option, none, some, List, [], ◌∷◌,
  ◌++◌, length, take, leb, ltb, if◌then◌else◌, ◌>>=◌,
}

-- `t_page_table` and `t_page_table_entry`. A leaf is an entry of a last-level table, with its frame
-- number; a node has the id of the next table and the table.
mutual
  pub data Table : Type 0 where
    table : ℕ → Entries → Table

  pub data Entries : Type 0 where
    nil : Entries
    cons : Entry → Entries → Entries

  pub data Entry : Type 0 where
    leaf : ℕ → Entry
    node : ℕ → Table → Entry

abbrev pub table_id : Table → ℕ
table_id (table id es) = id

abbrev pub entries : Table → Entries
entries (table id es) = es

-- `num_entries` of a table is the length of its list.
unfoldable pub num_entries : Entries → ℕ
num_entries nil = 0
num_entries (cons e es) = suc (num_entries es)

unfoldable pub get_entry : Entries → ℕ → Option Entry
get_entry nil i = none
get_entry (cons e es) zero = some e
get_entry (cons e es) (suc i) = get_entry es i

-- INVALID_FRAME_NUMBER, -1.
abbrev pub invalid_frame_number : ℕ
invalid_frame_number = 2 ^ 32 - 1

-- The loop of `_create_table` over the entries, each of which may take table ids from the counter.
unfoldable pub create_entries : (ℕ → Entry × ℕ) → ℕ → ℕ → Entries × ℕ
create_entries make zero next = (nil, next)
create_entries make (suc n) next =
    let (e, next₁) = make next in
    let (es, next₂) = create_entries make n next₁ in (cons e es, next₂)

abbrev pub new_leaf : ℕ → Entry × ℕ
new_leaf next = (leaf invalid_frame_number, next)

abbrev pub new_node : Table × ℕ → Entry × ℕ
new_node (t, next) = (node (table_id t) t, next)

abbrev pub new_table : ℕ → Entries × ℕ → Table × ℕ
new_table id (es, next) = (table id es, next)

-- `_create_table` at a level with `below` levels under it, with the counter `next_table_id`.
unfoldable pub create_table : ℕ → ℕ → ℕ → Table × ℕ
unfolding create_entries
create_table num zero next = new_table next (create_entries new_leaf num (suc next))
create_table num (suc below) next =
    new_table next (create_entries (λ n. new_node (create_table num below n)) num (suc next))

-- `init_page_table` for ENTRADAS_POR_TABLA and CANTIDAD_NIVELES, at least 1. The counter starts
-- from 1 for every process.
unfoldable pub init_page_table : ℕ → ℕ → Table
unfolding create_table
init_page_table num levels = (create_table num (levels - 1) 1).0

abbrev pub first_is_last_level : Entries → Bool
first_is_last_level nil = false
first_is_last_level (cons (leaf f) es) = true
first_is_last_level (cons (node id t) es) = false

abbrev pub or_else : Option Table → Option Table → Option Table
or_else none next = next
or_else (some t) next = some t

unfoldable mutual
  pub find_table_by_id : Table → ℕ → Option Table
  find_table_by_id (table id es) target =
      let found = find_in_entries es target in
      if id == target then some (table id es) else if first_is_last_level es then none else found

  pub find_in_entries : Entries → ℕ → Option Table
  find_in_entries nil target = none
  find_in_entries (cons e es) target = or_else (find_in_entry e target) (find_in_entries es target)

  pub find_in_entry : Entry → ℕ → Option Table
  find_in_entry (leaf f) target = none
  find_in_entry (node id t) target = find_table_by_id t target

-- What is sent back of an entry: its value, and 0 for the last level.
abbrev pub entry_response : Option Entry → ℕ × ℕ
entry_response none = (invalid_frame_number, 1)
entry_response (some (leaf frame)) = (frame, 0)
entry_response (some (node id t)) = (id, 1)

abbrev pub table_response : Option Table → ℕ → ℕ × ℕ
table_response none index = (invalid_frame_number, 1)
table_response (some t) index =
    if leb (num_entries (entries t)) index
    then (invalid_frame_number, 1)
    else entry_response (get_entry (entries t) index)

-- `handle_page_walk_request` from the page table of the process on.
unfoldable pub page_entry_response : Table → ℕ → ℕ → ℕ × ℕ
unfolding find_table_by_id get_entry num_entries
page_entry_response root id index =
    table_response (if table_id root == id then some root else find_table_by_id root id) index

abbrev pub Address : Type 0
Address = List ℕ

abbrev pub next_table : Option Entry → Option Table
next_table none = none
next_table (some (leaf f)) = none
next_table (some (node id t)) = some t

-- Following a pointer.
unfoldable pub deref : Table → Address → Option Table
unfolding get_entry
deref t [] = some t
deref t (i ∷ a) = next_table (get_entry (entries t) i) >>= λ child. deref child a

-- The queue items that the entries of a table add, from index `i` on.
unfoldable pub push_children : Entries → Address → ℕ → ℕ → List (Address × ℕ)
push_children nil a level i = []
push_children (cons (leaf f) es) a level i = push_children es a level (suc i)
push_children (cons (node id t) es) a level i =
    (a ++ i ∷ [], suc level) ∷ push_children es a level (suc i)

abbrev pub children : Option Table → Address → ℕ → List (Address × ℕ)
children none a level = []
children (some t) a level = push_children (entries t) a level 0

-- `collect_last_level_tables`, on fuel: `none` when it runs out.
unfoldable pub collect_last_level_tables :
    Table → ℕ → ℕ → ℕ → List (Address × ℕ) → List Address → Option (List Address)
unfolding deref push_children
collect_last_level_tables root last max zero queue result = none
collect_last_level_tables root last max (suc fuel) [] result = some result
collect_last_level_tables root last max (suc fuel) ((a, level) ∷ queue) result =
    let kept = if ltb (length result) max then result ++ a ∷ [] else result in
    let collected = collect_last_level_tables root last max fuel queue kept in
    let deeper =
      collect_last_level_tables root last max fuel (queue ++ children (deref root a) a level)
        result in
    if level == last then collected else deeper

-- The inner loop of `assign_frames`: the entries of one last-level table take the next frames.
unfoldable pub fill_entries : Entries → List ℕ → Entries × List ℕ
fill_entries nil frames = (nil, frames)
fill_entries (cons e es) [] = (cons e es, [])
fill_entries (cons (leaf old) es) (f ∷ frames) =
    let (es', rest) = fill_entries es frames in (cons (leaf f) es', rest)
fill_entries (cons (node id t) es) (f ∷ frames) =
    let (es', rest) = fill_entries es (f ∷ frames) in (cons (node id t) es', rest)

-- The same through the pointer `a`, which changes the tree in place.
unfoldable mutual
  unfolding fill_entries

  pub fill_at : Table → Address → List ℕ → Table × List ℕ
  fill_at (table id es) [] frames = let (es', rest) = fill_entries es frames in (table id es', rest)
  fill_at (table id es) (i ∷ a) frames =
      let (es', rest) = fill_at_entries es i a frames in (table id es', rest)

  pub fill_at_entries : Entries → ℕ → Address → List ℕ → Entries × List ℕ
  fill_at_entries nil i a frames = (nil, frames)
  fill_at_entries (cons e es) zero a frames =
      let (e', rest) = fill_at_entry e a frames in (cons e' es, rest)
  fill_at_entries (cons e es) (suc i) a frames =
      let (es', rest) = fill_at_entries es i a frames in (cons e es', rest)

  pub fill_at_entry : Entry → Address → List ℕ → Entry × List ℕ
  fill_at_entry (leaf f) a frames = (leaf f, frames)
  fill_at_entry (node id t) a frames = let (t', rest) = fill_at t a frames in (node id t', rest)

-- The outer loop.
unfoldable pub fill_tables : Table → List Address → List ℕ → Table × List ℕ
unfolding fill_at
fill_tables root [] frames = (root, frames)
fill_tables root (a ∷ more) frames =
    let (root', rest) = fill_at root a frames in fill_tables root' more rest

-- How many tables hang from a table with `below` levels under it, itself included.
unfoldable pub tables_below : ℕ → ℕ → ℕ
tables_below num zero = 1
tables_below num (suc below) = 1 + num * tables_below num below

-- The last-level tables take the frames; the answer says whether as many as pages were taken.
unfoldable pub assign_to : Table → List ℕ → ℕ → List Address → Bool × Table
unfolding fill_tables
assign_to root frames pages last =
    let (root', rest) = fill_tables root last frames in
    (length frames - length rest == pages, root')

-- `assign_frames`: whether every page got a frame, and the page table. `none`: out of fuel. The
-- frames that are handed in are one for each page.
unfoldable pub assign_frames : ℕ → ℕ → Table → List ℕ → ℕ → Option (Bool × Table)
unfolding collect_last_level_tables tables_below assign_to
assign_frames num levels root frames pages =
    let found =
      collect_last_level_tables root (levels - 1) (num ^ (levels - 1))
        (tables_below num (levels - 1) + 1) (([], 0) ∷ []) [] in
    let assigned = Option.map (assign_to root (take pages frames) pages) found in
    if pages == 0 then some (false, root) else assigned
