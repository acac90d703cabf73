-- ===== src/Memoria/PageTable/Shape.antt =====
-- The shape of the page tables that are created: every table has as many entries, all branches are
-- as deep, and the ids number the tables in the order in which they are created.
use tpsoaprobado.Base.{ℕ, zero, suc, ◌≤◌, ◌<◌, ◌≡◌, refl, arith}
use tpsoaprobado.Memoria.PageTable.{
  Table, table, Entries, nil, cons, Entry, leaf, node, table_id, create_entries, new_leaf, new_node,
  create_table,
}

-- `n` entries, each of which takes up the ids from where the one before it ended.
abbrev pub InRow : (Entry → ℕ → ℕ → Type 0) → ℕ → Entries → ℕ → ℕ → Type 0
InRow P zero nil lo hi = lo ≡ hi
InRow P zero (cons e es) lo hi = ⊥
InRow P (suc n) nil lo hi = ⊥
InRow P (suc n) (cons e es) lo hi = (mid : ℕ) × P e lo mid × InRow P n es mid hi

abbrev pub LeafOf : Entry → ℕ → ℕ → Type 0
LeafOf (leaf f) lo hi = lo ≡ hi
LeafOf (node id t) lo hi = ⊥

abbrev pub NodeOf : (Table → ℕ → ℕ → Type 0) → Entry → ℕ → ℕ → Type 0
NodeOf P (leaf f) lo hi = ⊥
NodeOf P (node id t) lo hi = (id ≡ lo) × P t lo hi

abbrev pub Rooted : (Entry → ℕ → ℕ → Type 0) → ℕ → Table → ℕ → ℕ → Type 0
Rooted P num (table id es) lo hi = (id ≡ lo) × InRow P num es (suc lo) hi

-- A tree with `below` levels under its root and `num` entries in each table, whose tables have the
-- ids from `lo` to below `hi`, its root the first.
abbrev pub Shaped : ℕ → ℕ → Table → ℕ → ℕ → Type 0
Shaped num zero t lo hi = Rooted LeafOf num t lo hi
Shaped num (suc below) t lo hi = Rooted (NodeOf (Shaped num below)) num t lo hi

create_entries-InRow :
    (P : Entry → ℕ → ℕ → Type 0) (make : ℕ → Entry × ℕ)
    → ((next : ℕ) → P (make next).0 next (make next).1)
    → (n lo : ℕ) → let (es, hi) = create_entries make n lo in InRow P n es lo hi
unfolding create_entries
create_entries-InRow P make each zero lo = refl
create_entries-InRow P make each (suc n) lo =
    ((make lo).1, each lo, create_entries-InRow P make each n (make lo).1)

table_id-create_table : (num below lo : ℕ) → table_id (create_table num below lo).0 ≡ lo
unfolding create_table
table_id-create_table num zero lo = refl
table_id-create_table num (suc below) lo = refl

-- The table that is created at a level has as many entries as configured, all its branches have
-- the levels that are below, and its tables have the ids from the counter on, in the order of
-- creation, each entry holding the id of its table; the counter ends after the last of them.
pub create_table-Shaped :
    (num below lo : ℕ) → let (t, hi) = create_table num below lo in Shaped num below t lo hi
unfolding create_table
create_table-Shaped num zero lo =
    (refl, create_entries-InRow LeafOf new_leaf (λ n. refl) num (suc lo))
create_table-Shaped num (suc below) lo = (
  refl,
  create_entries-InRow (NodeOf (Shaped num below)) (λ n. new_node (create_table num below n))
      (λ n. (table_id-create_table num below n, create_table-Shaped num below n)) num (suc lo),
)

-- Ids only grow.
pub InRow-le :
    (P : Entry → ℕ → ℕ → Type 0)
    → ((e : Entry) (lo hi : ℕ) → P e lo hi → lo ≤ hi)
    → (n : ℕ) (es : Entries) (lo hi : ℕ) → InRow P n es lo hi
    → lo ≤ hi
InRow-le P each zero nil lo hi h = omega arith
InRow-le P each zero (cons e es) lo hi h = absurd h
InRow-le P each (suc n) nil lo hi h = absurd h
InRow-le P each (suc n) (cons e es) lo hi (mid, p, rest) =
    omega (arith, each e lo mid p, InRow-le P each n es mid hi rest)

pub Shaped-lt : (num below : ℕ) (t : Table) (lo hi : ℕ) → Shaped num below t lo hi → lo < hi
Shaped-lt num zero (table id es) lo hi (e, row) = InRow-le LeafOf leaf-le num es (suc lo) hi row
  where
    leaf-le : (e : Entry) (a b : ℕ) → LeafOf e a b → a ≤ b
    leaf-le (leaf f) a b h = omega arith
    leaf-le (node i t) a b h = absurd h
Shaped-lt num (suc below) (table id es) lo hi (e, row) =
    InRow-le (NodeOf (Shaped num below)) (node-le (Shaped-lt num below)) num es (suc lo) hi row
  where
    node-le :
        ((t : Table) (a b : ℕ) → Shaped num below t a b → a < b)
        → (e : Entry) (a b : ℕ) → NodeOf (Shaped num below) e a b
        → a ≤ b
    node-le each (leaf f) a b h = absurd h
    node-le each (node i t) a b (same, h) = omega (arith, each t a b h)

pub NodeOf-lt : (num below : ℕ) (e : Entry) (a b : ℕ) → NodeOf (Shaped num below) e a b → a < b
NodeOf-lt num below (leaf f) a b h = absurd h
NodeOf-lt num below (node i t) a b (same, h) = Shaped-lt num below t a b h
