-- ===== src/Memoria/PageTable/Search.antt =====
-- The search for a table by its id finds the table that has it.
use tpsoaprobado.Base.{
  [], ◌∷◌, ◌>>=◌, ℕ, zero, suc, ◌≤◌, ◌<◌, ◌≡◌, ◌⊎◌, inl, inr, refl, ap, ◌∙◌, Option, none, some,
  arith, ==_refl, ℕ_discrete, Bool-cases, ltb, ltb→lt, ltb→le,
}
use tpsoaprobado.Memoria.PageTable.{
  Table, table, Entries, nil, cons, Entry, leaf, node, get_entry, find_table_by_id, find_in_entries,
  find_in_entry, or_else, Address, deref, next_table, table_id,
}
use tpsoaprobado.Memoria.PageTable.Shape.{
  InRow, LeafOf, NodeOf, Shaped, InRow-le, Shaped-lt, NodeOf-lt,
}

abbrev Outside : ℕ → ℕ → ℕ → Type 0
Outside target lo hi = (target < lo) ⊎ (hi ≤ target)

InRow-misses :
    (P : Entry → ℕ → ℕ → Type 0)
    → ((e : Entry) (a b : ℕ) → P e a b → a ≤ b)
    → ((e : Entry) (a b target : ℕ) → P e a b → Outside target a b → find_in_entry e target ≡ none)
    → (n : ℕ) (es : Entries) (lo hi target : ℕ) → InRow P n es lo hi
    → Outside target lo hi
    → find_in_entries es target ≡ none
unfolding find_in_entries
InRow-misses P grows each zero nil lo hi target h out = refl
InRow-misses P grows each zero (cons e es) lo hi target h out = absurd h
InRow-misses P grows each (suc n) nil lo hi target h out = absurd h
InRow-misses P grows each (suc n) (cons e es) lo hi target (mid, p, rest) out =
    let up = InRow-le P grows n es mid hi rest in
    let first = grows e lo mid p in
    rw (each e lo mid target p (omega (arith, up, first, out)))
      (InRow-misses P grows each n es mid hi target rest (omega (arith, up, first, out)))

leaf-misses :
    (e : Entry) (a b target : ℕ) → LeafOf e a b → Outside target a b → find_in_entry e target ≡ none
unfolding find_in_entry
leaf-misses (leaf f) a b target h out = refl
leaf-misses (node id t) a b target h out = absurd h

leaf-le : (e : Entry) (a b : ℕ) → LeafOf e a b → a ≤ b
leaf-le (leaf f) a b h = omega arith
leaf-le (node i t) a b h = absurd h

pub find-root :
    (id target : ℕ) (es : Entries)
    → id ≡ target
    → find_table_by_id (table id es) target ≡ some (table id es)
unfolding find_table_by_id
find-root id target es e = rw (e, ==_refl target)

find-leaves :
    (id target : ℕ) (es : Entries)
    → ¬ (id ≡ target)
    → find_in_entries es target ≡ none
    → find_table_by_id (table id es) target ≡ none
unfolding find_table_by_id
find-leaves id target es ne none_there = ground arith

-- A table whose first entry is a node searches its entries.
pub find-nodes :
    (P : Table → ℕ → ℕ → Type 0) (n id lo hi target : ℕ) (es : Entries)
    → InRow (NodeOf P) n es lo hi
    → ¬ (id ≡ target)
    → find_table_by_id (table id es) target ≡ find_in_entries es target
unfolding find_table_by_id find_in_entries
find-nodes P zero id lo hi target nil h ne = ground arith
find-nodes P zero id lo hi target (cons e es) h ne = absurd h
find-nodes P (suc n) id lo hi target nil h ne = absurd h
find-nodes P (suc n) id lo hi target (cons (leaf f) es) h ne = absurd h.1
find-nodes P (suc n) id lo hi target (cons (node i t) es) h ne = ground arith

-- An id outside the range of the tree is not found.
pub Shaped-misses :
    (num below : ℕ) (t : Table) (lo hi target : ℕ)
    → Shaped num below t lo hi
    → Outside target lo hi
    → find_table_by_id t target ≡ none
unfolding find_in_entry
Shaped-misses num zero (table id es) lo hi target (e, row) out =
    find-leaves id target es (omega (arith, e, out, InRow-le LeafOf leaf-le num es (suc lo) hi row))
      (InRow-misses LeafOf leaf-le leaf-misses num es (suc lo) hi target row (omega (arith, out)))
Shaped-misses num (suc below) (table id es) lo hi target (e, row) out =
    find-nodes (Shaped num below) num id (suc lo) hi target es row
      (omega (arith, e, out, InRow-le (NodeOf (Shaped num below)) grows num es (suc lo) hi row))
    ∙ InRow-misses (NodeOf (Shaped num below)) grows (nodes (Shaped-misses num below)) num es
        (suc lo) hi target row (omega (arith, out))
  where
    grows : (e : Entry) (a b : ℕ) → NodeOf (Shaped num below) e a b → a ≤ b
    grows e a b h = omega (arith, NodeOf-lt num below e a b h)

    nodes :
        ((t : Table) (a b target : ℕ)
          → Shaped num below t a b
          → Outside target a b
          → find_table_by_id t target ≡ none)
        → (e : Entry) (a b target : ℕ) → NodeOf (Shaped num below) e a b
        → Outside target a b
        → find_in_entry e target ≡ none
    nodes ih (leaf f) a b target h out = absurd h
    nodes ih (node i t) a b target (same, h) out = ih t a b target h out

leaves-eq : (n : ℕ) (es : Entries) (lo hi : ℕ) → InRow LeafOf n es lo hi → lo ≡ hi
leaves-eq zero nil lo hi h = h
leaves-eq zero (cons e es) lo hi h = absurd h
leaves-eq (suc n) nil lo hi h = absurd h
leaves-eq (suc n) (cons (leaf f) es) lo hi (mid, p, rest) = p ∙ leaves-eq n es mid hi rest
leaves-eq (suc n) (cons (node id t) es) lo hi (mid, p, rest) = absurd p

-- For every id from `lo` to below `hi`, a table is found that has the id, and that pointers lead to.
abbrev pub Found : (ℕ → Option Table) → (Address → Option Table) → ℕ → ℕ → Type 0
Found find at lo hi =
    (target : ℕ)
    → lo ≤ target
    → target < hi
    → (s : Table) × (a : Address) × (find target ≡ some s) × (at a ≡ some s) × (table_id s ≡ target)

-- The same for a row of entries, by the pointers from its entry `i` on.
abbrev FoundIn : Entries → ℕ → ℕ → Type 0
FoundIn es lo hi =
    (target : ℕ)
    → lo ≤ target
    → target < hi
    → (s : Table) × (i : ℕ) × (a : Address) × (find_in_entries es target ≡ some s)
      × ((next_table (get_entry es i) >>= λ child. deref child a) ≡ some s)
      × (table_id s ≡ target)

row-hits :
    (num below : ℕ)
    → ((t : Table) (a b : ℕ) → Shaped num below t a b → Found (find_table_by_id t) (deref t) a b)
    → (n : ℕ) (es : Entries) (lo hi : ℕ) → InRow (NodeOf (Shaped num below)) n es lo hi
    → FoundIn es lo hi
unfolding find_in_entries find_in_entry deref get_entry
row-hits num below each zero nil lo hi h target l k = absurd (omega arith)
row-hits num below each zero (cons e es) lo hi h target l k = absurd h
row-hits num below each (suc n) nil lo hi h target l k = absurd h
row-hits num below each (suc n) (cons (leaf f) es) lo hi (mid, p, rest) target l k = absurd p
row-hits num below each (suc n) (cons (node id c) es) lo hi (mid, (same, p), rest) target l k =
    elim (Bool-cases (ltb target mid)) [
      | inl here ↦
          let (s, a, e, at, named) = each c lo mid p target l (ltb→lt target mid here) in
          (s, 0, a, rw e refl, at, named)
      | inr later ↦
          let (s, i, a, e, at, named) =
            row-hits num below each n es mid hi rest target (ltb→le target mid later) k in
          (
            s,
            suc i,
            a,
            rw (Shaped-misses num below c lo mid target p (inr (ltb→le target mid later))) e,
            at,
            named,
          )
    ]

-- In a tree of the shape that is created, the search for an id that the tree has used finds a table
-- with that id, and pointers of the tree lead to it.
pub Shaped-hits :
    (num below : ℕ) (t : Table) (lo hi : ℕ)
    → Shaped num below t lo hi
    → Found (find_table_by_id t) (deref t) lo hi
unfolding deref
Shaped-hits num zero (table id es) lo hi (e, row) target h k =
    let same : id ≡ target = omega (arith, e, leaves-eq num es (suc lo) hi row) in
    (table id es, [], find-root id target es same, refl, same)
Shaped-hits num (suc below) (table id es) lo hi (e, row) target h k = elim (ℕ_discrete id target) [
  | yes root ↦ (table id es, [], find-root id target es root, refl, root)
  | no deeper ↦
      let (s, i, a, found, at, named) =
        row-hits num below (Shaped-hits num below) num es (suc lo) hi row target
          (omega (arith, e, deeper)) k in
      (
        s,
        i ∷ a,
        find-nodes (Shaped num below) num id (suc lo) hi target es row deeper ∙ found,
        at,
        named,
      )
]

hit-or_else :
    {found : Option Table} (more : Option Table) {s : Table}
    → found ≡ some s
    → or_else found more ≡ found
hit-or_else more e = rw e

-- The range of a node in a row of nodes lies in that of the row, and the search for an id of that
-- range goes to the node.
pub record ChildAt (num below : ℕ) (es : Entries) (lo hi i : ℕ) : Type 0 where
  pub child : Table
  pub first : ℕ
  pub end : ℕ
  pub entry : get_entry es i ≡ some (node first child)
  pub shaped : Shaped num below child first end
  pub from : lo ≤ first
  pub to : end ≤ hi
  pub search :
      (target : ℕ)
      → first ≤ target
      → target < end
      → find_in_entries es target ≡ find_table_by_id child target

pub InRow-child :
    (num below n : ℕ) (es : Entries) (lo hi i : ℕ)
    → InRow (NodeOf (Shaped num below)) n es lo hi
    → i < n
    → ChildAt num below es lo hi i
unfolding get_entry find_in_entries find_in_entry
InRow-child num below zero es lo hi i row h = absurd (omega arith)
InRow-child num below (suc n) nil lo hi i row h = absurd row
InRow-child num below (suc n) (cons (leaf f) es) lo hi i (mid, p, rest) h = absurd p
InRow-child num below (suc n) (cons (node id c) es) lo hi zero (mid, (same, p), rest) h = record {
  child = c;
  first = lo;
  end = mid;
  entry = ap (λ a. some (node a c)) same;
  shaped = p;
  from = omega arith;
  to =
      InRow-le (NodeOf (Shaped num below)) (λ e a b q. omega (arith, NodeOf-lt num below e a b q)) n
        es mid hi rest;
  search = λ target l k.
      let (s, a, e, at, named) = Shaped-hits num below c lo mid p target l k in hit-or_else _ e;
}
InRow-child num below (suc n) (cons (node id c) es) lo hi (suc i) (mid, (same, p), rest) h =
    let later = InRow-child num below n es mid hi i rest (omega arith) in
    let up = Shaped-lt num below c lo mid p in
    record {
      child = later.child;
      first = later.first;
      end = later.end;
      entry = later.entry;
      shaped = later.shaped;
      from = omega (arith, up, later.from);
      to = later.to;
      search = λ target l k.
          rw (Shaped-misses num below c lo mid target p (inr (omega (arith, later.from, l))))
            (later.search target l k);
    }
