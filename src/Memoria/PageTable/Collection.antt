-- ===== src/Memoria/PageTable/Collection.antt =====
-- The breadth-first collection of the last-level tables, and the assignment of frames to them:
-- memoria/src/kernel_space/assign-frames-to-process.c on the page tables of
-- memoria/src/kernel_space/page_table.c.
use mathlib.Core.List.{◌++◌}
use tpsoaprobado.Base.{
  if◌then◌else◌, ℕ, zero, suc, ◌+◌, ◌*◌, ◌-◌, ◌^◌, ◌<◌, ◌≡◌, refl, ap, subst, sym, ◌∙◌, arith, Bool,
  false, ◌==◌, Bool-cases, some_inj, Option, none, some, Option-cases, inl, inr, ltb, ◌>>=◌, List,
  [], ◌∷◌, length, take, All, All-append,
}
use tpsoaprobado.Memoria.PageTable.{
  Table, table, Entries, nil, cons, Entry, leaf, node, entries, get_entry, Address, next_table,
  deref, push_children, children, collect_last_level_tables, tables_below, assign_to, assign_frames,
  init_page_table, create_table,
}
use tpsoaprobado.Memoria.PageTable.Shape.{InRow, NodeOf, Shaped, create_table-Shaped}

bind_some : (o : Option Table) → (o >>= λ t. some t) ≡ o
bind_some none = refl
bind_some (some t) = refl

no_table : {t : Table} → ¬ (none ≡ some t)
no_table e = cc

-- A pointer that is followed one index further.
deref-append :
    (root t : Table) (a : Address) (i : ℕ)
    → deref root a ≡ some t
    → deref root (a ++ i ∷ []) ≡ next_table (get_entry (entries t) i)
unfolding deref
deref-append root t [] i e =
    bind_some (next_table (get_entry (entries root) i))
    ∙ ap (λ s. next_table (get_entry (entries s) i)) (some_inj e)
deref-append root t (j ∷ a) i e = elim (Option-cases (next_table (get_entry (entries root) j))) [
  | inl missing ↦ absurd (no_table (sym (ap (λ o. o >>= λ child. deref child a) missing) ∙ e))
  | inr (c, there) ↦
      rw there (deref-append c t a i (sym (ap (λ o. o >>= λ child. deref child a) there) ∙ e))
]

module _ (num last : ℕ) (root : Table) where
  -- An item of the queue: a pointer to a table with as many levels below it as are left.
  record Awaits (item : Address × ℕ) : Type 0 where
    there : Table
    below : ℕ
    first : ℕ
    end : ℕ
    found : deref root item.0 ≡ some there
    level : item.1 + below ≡ last
    shaped : Shaped num below there first end

  -- How many tables are still to be visited from a queue.
  abbrev weight : List (Address × ℕ) → ℕ
  weight [] = 0
  weight (item ∷ queue) = tables_below num (last - item.1) + weight queue

  weight-append : (p q : List (Address × ℕ)) → weight (p ++ q) ≡ weight p + weight q
  weight-append [] q = omega arith
  weight-append (item ∷ p) q = omega (arith, weight-append p q)

  levels_left : (level below : ℕ) → suc level + below ≡ last → last - suc level ≡ below
  levels_left level below deep = omega (arith, deep)

  -- The children of a table wait with one level less, and weigh as much as its row of nodes.
  push_children-Awaits :
      (below n : ℕ) (es : Entries) (lo hi : ℕ) (a : Address) (level i : ℕ)
      → InRow (NodeOf (Shaped num below)) n es lo hi
      → suc level + below ≡ last
      → ((j k : ℕ) (e : Entry)
          → get_entry es j ≡ some e
          → k ≡ i + j
          → deref root (a ++ k ∷ []) ≡ next_table (some e))
      → All Awaits (push_children es a level i)
        × (weight (push_children es a level i) ≡ n * tables_below num below)
  unfolding push_children get_entry
  push_children-Awaits below zero nil lo hi a level i row deep follow = (tt, omega arith)
  push_children-Awaits below zero (cons e es) lo hi a level i row deep follow = absurd row
  push_children-Awaits below (suc n) nil lo hi a level i row deep follow = absurd row
  push_children-Awaits below (suc n) (cons (leaf f) es) lo hi a level i (mid, p, rest) deep follow =
      absurd p
  push_children-Awaits below (suc n) (cons (node id c) es) lo hi a level i (mid, (same, p), rest)
        deep follow =
      let (more, heavy) =
        push_children-Awaits below n es mid hi a level (suc i) rest deep
          (λ j k e here eq. follow (suc j) k e here (omega arith)) in
      (
        (
          record {
            there = c;
            below = below;
            first = lo;
            end = mid;
            found = follow zero i (node id c) refl (omega arith);
            level = deep;
            shaped = p;
          },
          more,
        ),
        omega (arith, ap (tables_below num) (levels_left level below deep), heavy),
      )

  tables_below-pos : (below : ℕ) → 0 < tables_below num below
  unfolding tables_below
  tables_below-pos zero = omega arith
  tables_below-pos (suc below) = omega arith

  -- The children of a table that waits wait, and weigh less than it by one.
  children-Awaits :
      (t : Table) (a : Address) (level below lo hi : ℕ)
      → deref root a ≡ some t
      → level + suc below ≡ last
      → Shaped num (suc below) t lo hi
      → All Awaits (children (some t) a level)
        × (suc (weight (children (some t) a level)) ≡ tables_below num (suc below))
  unfolding tables_below
  children-Awaits (table id es) a level below lo hi found deep (same, row) =
      let (waits, heavy) =
        push_children-Awaits below num es (suc lo) hi a level 0 row (omega (arith, deep))
          (λ j k e here eq.
            deref-append root (table id es) a k found
            ∙ ap next_table (ap (get_entry es) (omega (arith, eq)) ∙ here)) in
      (waits, omega (arith, heavy))

  -- The loop ends when it has as much fuel as there are tables to visit, and one more.
  collect-some :
      (max fuel : ℕ) (queue : List (Address × ℕ)) (result : List Address)
      → All Awaits queue
      → weight queue < fuel
      → (found : List Address) × (collect_last_level_tables root last max fuel queue result
          ≡ some found)
  unfolding collect_last_level_tables
  collect-some max zero queue result waits enough = absurd (omega arith)
  collect-some max (suc fuel) [] result waits enough = (result, refl)
  collect-some max (suc fuel) ((a, level) ∷ queue) result (here, later) enough =
      elim (Bool-cases (level == last)) [
        | inl bottom ↦
            let pos = tables_below-pos (last - level) in
            let rest =
              collect-some max fuel queue
                (if ltb (length result) max then result ++ a ∷ [] else result) later
                (omega arith) in
            (rest.0, rw bottom rest.1)
        | inr inner ↦
            let deep : level + suc (here.below - 1) ≡ last = ground (arith, here.level, inner) in
            let same : here.below ≡ suc (here.below - 1) = omega (arith, here.level, deep) in
            let (waits, heavy) =
              children-Awaits here.there a level (here.below - 1) here.first here.end here.found
                deep (subst (λ n. Shaped num n here.there here.first here.end) same here.shaped) in
            let lighter : tables_below num (last - level)
                ≡ tables_below num (suc (here.below - 1)) =
              ap (tables_below num) (omega (arith, deep)) in
            let more = children (some here.there) a level in
            let rest =
              collect-some max fuel (queue ++ more) result
                (All-append Awaits queue more later waits)
                (omega (arith, weight-append queue more)) in
            (rest.0, rw (inner, here.found) rest.1)
      ]

-- The assignment of frames to a page table that was created ends.
pub assign_frames-some :
    (num levels pages : ℕ) (frames : List ℕ)
    → (success : Bool) × (t : Table) × (assign_frames num levels
          (init_page_table num levels)
          frames
          pages
        ≡ some (success, t))
unfolding assign_frames init_page_table deref
assign_frames-some num levels pages frames =
    let (root, end) = create_table num (levels - 1) 1 in
    let item : Awaits num (levels - 1) root ([], 0) = record {
      there = root;
      below = levels - 1;
      first = 1;
      end = end;
      found = refl;
      level = omega arith;
      shaped = create_table-Shaped num (levels - 1) 1;
    } in
    let (last, collected) =
      collect-some num (levels - 1) root (num ^ (levels - 1)) (tables_below num (levels - 1) + 1)
        (([], 0) ∷ []) [] (item, tt) (omega (arith, ap (tables_below num) (whole levels))) in
    elim (Bool-cases (pages == 0)) [
      | inl nothing ↦ (false, root, rw nothing refl)
      | inr some_pages ↦
          let (success, t) = assign_to root (take pages frames) pages last in
          (success, t, rw (some_pages, collected) refl)
    ]
  where
    whole : (levels : ℕ) → levels - 1 - 0 ≡ levels - 1
    whole levels = omega arith
