-- ===== src/Cpu/Tlb/Bounds.antt =====
-- The buffer of cpu/src/mmu.c keeps within its size, and LRU replaces the oldest entry.
use tpsoaprobado.Base.{
  ◌%◌, set, le→ltb, false, ℕ, suc, ◌+◌, ◌-◌, ◌^◌, ◌≤◌, ◌<◌, ◌≡◌, ◌⊎◌, inl, inr, refl, ap, ◌∙◌, Bool,
  ◌==◌, Option, none, some, List, [], ◌∷◌, All, length, length-append, length-set, get_elem?, ltb,
  ltb→lt, ltb→le, arith, tests, Bool-cases,
}
use native.Mathlib.Nat.{mod-lt}
use tpsoaprobado.Cpu.Tlb.{
  TlbEntry, TlbConfig, Tlb, TlbReplacementAlgorithm, tlb_algo_fifo, tlb_algo_lru, find_entry, touch,
  found_entry, is_page, tlb_find_entry, lru_victim, replace_at, replace_victim, new_entry,
  tlb_add_entry,
}

-- No more entries than configured, and the FIFO pointer among them.
pub record IsBounded (config : TlbConfig) (s : Tlb) : Type 0 where
  pub size : length s.tlb ≤ config.entry_count
  pub pointer : s.fifo_pointer ≤ config.entry_count - 1

pub length-touch :
    (test : TlbEntry → Bool) (now : ℕ) (es : List TlbEntry) → length (touch test now es) ≡ length es
unfolding touch
length-touch test now [] = refl
length-touch test now (e ∷ es) = elim (Bool-cases (test e)) [
  | inl h ↦ rw h refl
  | inr h ↦ rw h (ap suc (length-touch test now es))
]

found_entry-IsBounded :
    (config : TlbConfig) (found : Option TlbEntry) (algo : TlbReplacementAlgorithm) (s : Tlb)
    (test : TlbEntry → Bool)
    → IsBounded config s
    → IsBounded config (found_entry found algo s test).1
found_entry-IsBounded config none algo s test h = h
found_entry-IsBounded config (some e) tlb_algo_fifo s test h = h
found_entry-IsBounded config (some e) tlb_algo_lru s test h = record {
  size = omega (arith, h.size, length-touch test s.timestamp_counter s.tlb);
  pointer = h.pointer;
}

-- A search keeps the bounds.
pub tlb_find_entry-IsBounded :
    (config : TlbConfig) (page pid : ℕ) (s : Tlb)
    → IsBounded config s
    → IsBounded config (tlb_find_entry config page pid s).1
unfolding tlb_find_entry
tlb_find_entry-IsBounded config page pid s h = elim (Bool-cases (config.entry_count == 0)) [
  | inl e ↦ rw e h
  | inr e ↦ rw e (
      found_entry-IsBounded config (find_entry (is_page page pid) s.tlb) config.replacement_algo s
        (is_page page pid) h)
]

length-replace_at :
    (i : Option ℕ) (e : TlbEntry) (es : List TlbEntry) → length (replace_at i e es) ≡ length es
length-replace_at none e es = refl
length-replace_at (some i) e es = length-set es i e

replace_victim-IsBounded :
    (config : TlbConfig) (algo : TlbReplacementAlgorithm) (e : TlbEntry) (s : Tlb)
    → 0 < config.entry_count
    → IsBounded config s
    → IsBounded config (replace_victim algo config.entry_count e s)
replace_victim-IsBounded config tlb_algo_fifo e s some_room h = record {
  size = omega (arith, h.size, length-set s.tlb s.fifo_pointer e);
  pointer = omega (arith, mod-lt (s.fifo_pointer + 1) some_room);
}
replace_victim-IsBounded config tlb_algo_lru e s some_room h = record {
  size = omega (arith, h.size, length-replace_at (lru_victim s.tlb 0 (2 ^ 64 - 1) none) e s.tlb);
  pointer = h.pointer;
}

-- An addition keeps the bounds.
pub tlb_add_entry-IsBounded :
    (config : TlbConfig) (page frame pid : ℕ) (s : Tlb)
    → IsBounded config s
    → IsBounded config (tlb_add_entry config page frame pid s)
unfolding tlb_add_entry
tlb_add_entry-IsBounded config page frame pid s h = elim (Bool-cases (config.entry_count == 0)) [
  | inl e ↦ rw e h
  | inr e ↦ rw e (elim (Bool-cases (ltb (length s.tlb) config.entry_count)) [
    | inl room ↦ rw room (record {
      size =
          omega
            (tests, room, length-append s.tlb (new_entry page frame pid s.timestamp_counter ∷ []));
      pointer = h.pointer;
    })
    | inr full ↦ rw full (
        replace_victim-IsBounded config config.replacement_algo
          (new_entry page frame pid s.timestamp_counter) s (ground (arith, e)) h)
  ])
]

-- Where the search for the least timestamp ends: at the entry that it had, when no entry is below
-- it, or at an entry with the least timestamp of all.
abbrev pub Least : List TlbEntry → ℕ → ℕ → Option ℕ → Option ℕ → Type 0
Least es i min_ts victim answer =
    ((answer ≡ victim) × All (λ e. min_ts ≤ e.lru_timestamp) es)
    ⊎ ((j : ℕ) × (least : TlbEntry) × (answer ≡ some (i + j))
        × (get_elem? es j ≡ some least)
        × (least.lru_timestamp < min_ts)
        × All (λ e. least.lru_timestamp ≤ e.lru_timestamp) es)

-- The search for the victim of LRU, from any best timestamp and index so far, ends at an entry
-- whose timestamp is below that one and the least of all, or, when no entry is below it, at the
-- index so far.
lru_victim-Least :
    (es : List TlbEntry) (i min_ts : ℕ) (victim : Option ℕ)
    → Least es i min_ts victim (lru_victim es i min_ts victim)
unfolding lru_victim
lru_victim-Least [] i min_ts victim = inl (refl, tt)
lru_victim-Least (e ∷ es) i min_ts victim = elim (Bool-cases (ltb e.lru_timestamp min_ts)) [
  | inl less ↦ rw less (elim (lru_victim-Least es (suc i) e.lru_timestamp (some i)) [
    | inl (same, all) ↦
        inr (0, e, same ∙ ap some (omega arith), refl, ltb→lt _ _ less, (omega arith, all))
    | inr (j, least, at, there, below, all) ↦ inr (
      suc j,
      least,
      at ∙ ap some (omega arith),
      there,
      omega (tests, below, less),
      (omega (arith, below), all),
    )
  ])
  | inr more ↦ rw more (elim (lru_victim-Least es (suc i) min_ts victim) [
    | inl (same, all) ↦ inl (same, (ltb→le _ _ more, all))
    | inr (j, least, at, there, below, all) ↦
        inr (
          suc j,
          least,
          at ∙ ap some (omega arith),
          there,
          below,
          (omega (tests, below, more), all),
        )
  ])
]

some_below :
    (es : List TlbEntry) (bound : ℕ)
    → 0 < length es
    → All (λ e. e.lru_timestamp < bound) es
    → ¬ All (λ e. bound ≤ e.lru_timestamp) es
some_below [] bound some_entry below above = omega arith
some_below (e ∷ es) bound some_entry (less, below) (more, above) = omega (arith, less, more)

-- By LRU, an addition to a full buffer of at least one entry, with timestamps below the largest that
-- a uint64_t holds, puts the new entry, stamped with the counter, in the place of one with the least
-- timestamp of all; the other entries and the pointer of FIFO stay, and the counter goes on.
pub tlb_add_entry-Least :
    (config : TlbConfig) (page frame pid : ℕ) (s : Tlb)
    → config.replacement_algo ≡ tlb_algo_lru
    → 0 < config.entry_count
    → config.entry_count ≤ length s.tlb
    → All (λ e. e.lru_timestamp < 2 ^ 64 - 1) s.tlb
    → (j : ℕ) × (least : TlbEntry) × (get_elem? s.tlb j ≡ some least)
      × All (λ e. least.lru_timestamp ≤ e.lru_timestamp) s.tlb
      × (tlb_add_entry config page frame pid s ≡ record {
        tlb =
            set s.tlb j (record {
              page = page;
              pid = pid;
              frame = frame;
              lru_timestamp = s.timestamp_counter;
            });
        fifo_pointer = s.fifo_pointer;
        timestamp_counter = (s.timestamp_counter + 1) % 2 ^ 64;
      })
unfolding tlb_add_entry
tlb_add_entry-Least config page frame pid s lru some_entries full below =
    elim (lru_victim-Least s.tlb 0 (2 ^ 64 - 1) none) [
      | inl (nothing, above) ↦
          absurd (some_below s.tlb (2 ^ 64 - 1) (omega (arith, full)) below above)
      | inr (j, least, at, there, less, all) ↦ (
        j,
        least,
        there,
        all,
        rw
            (
              no_entries config.entry_count some_entries,
              le→ltb (length s.tlb) config.entry_count full,
              lru,
              at ∙ ap some (index j),
            )
            refl,
      )
    ]
  where
    no_entries : (n : ℕ) → 0 < n → (n == 0) ≡ false
    no_entries n h = ground arith

    index : (j : ℕ) → 0 + j ≡ j
    index j = omega arith
