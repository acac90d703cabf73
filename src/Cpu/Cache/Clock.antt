-- ===== src/Cpu/Cache/Clock.antt =====
-- The clock of cpu/src/mmu.c ends with a victim that may go.
use tpsoaprobado.Base.{
  ℕ, zero, suc, ◌+◌, ◌%◌, ◌≤◌, ◌<◌, ◌≡◌, inl, inr, refl, sym, ap, ◌∙◌, Bool, true, false, ◌&&◌,
  Option, some, some_inj, List, [], ◌∷◌, map, bit, length, length-set, get_elem?, get_elem?-lt, set,
  arith, Bool-cases,
}
use native.Mathlib.Nat.{mod-lt}
use tpsoaprobado.Cpu.Cache.{
  CacheEntry, Cache, with_use, advance, current, clear_use, clock_turn, cache_find_victim_clock,
}

abbrev pub protected : CacheEntry → Bool
protected e = e.is_valid && e.use_bit

-- The entries that a second chance protects.
abbrev pub hot : List CacheEntry → ℕ
hot [] = 0
hot (e ∷ es) = bit (protected e) + hot es

pub hot-le : (es : List CacheEntry) → hot es ≤ length es
hot-le [] = omega arith
hot-le (e ∷ es) = elim (Bool-cases (protected e)) [
  | inl h ↦ rw h (omega (arith, hot-le es))
  | inr h ↦ rw h (omega (arith, hot-le es))
]

and-false : (b : Bool) → (b && false) ≡ false
and-false true = refl
and-false false = refl

-- A protected entry loses its protection.
pub hot-cleared :
    (es : List CacheEntry) (i : ℕ) (e : CacheEntry)
    → get_elem? es i ≡ some e
    → protected e ≡ true
    → suc (hot (set es i (with_use false e))) ≡ hot es
hot-cleared [] i e there h = absurd (cc)
hot-cleared (x ∷ es) zero e there h =
    let same = ap protected (some_inj there) ∙ h in
    omega (arith, ap bit (and-false e.is_valid), ap bit same)
hot-cleared (x ∷ es) (suc i) e there h = omega (arith, hot-cleared es i e there h)

-- An entry less its use bit.
abbrev pub unused : List CacheEntry → List CacheEntry
unused = map (with_use false)

pub unused-cleared :
    (es : List CacheEntry) (i : ℕ) (e : CacheEntry)
    → get_elem? es i ≡ some e
    → unused (set es i (with_use false e)) ≡ unused es
unused-cleared [] i e there = refl
unused-cleared (x ∷ es) zero e there = ap (λ y. with_use false y ∷ unused es) (sym (some_inj there))
unused-cleared (x ∷ es) (suc i) e there = ap (◌∷◌ (with_use false x)) (unused-cleared es i e there)

-- A cache with as many entries as configured, and the pointer at one of them.
pub record IsClock (count : ℕ) (c : Cache) : Type 0 where
  pub size : length c.cache ≡ count
  pub pointer : c.clock_pointer < count

-- What a choice gives: a slot whose entry, as it is then, is invalid or not in use, the pointer
-- just after it, and the entries as they were but for their use bits.
pub record Chosen (count : ℕ) (c : Cache) (answer : Option (ℕ × Cache)) : Type 0 where
  pub victim : ℕ
  pub after : Cache
  pub entry : CacheEntry
  pub chosen : answer ≡ some (victim, after)
  pub there : get_elem? after.cache victim ≡ some entry
  pub evictable : protected entry ≡ false
  pub clock : IsClock count after
  pub pointer : after.clock_pointer ≡ (victim + 1) % count
  pub kept : unused after.cache ≡ unused c.cache

pub advance-IsClock : (count : ℕ) (c : Cache) → IsClock count c → IsClock count (advance count c)
advance-IsClock count c h = record {
  size = h.size;
  pointer = mod-lt (c.clock_pointer + 1) (omega (arith, h.pointer));
}

-- The entry at the pointer may go.
pub now-Chosen :
    (count : ℕ) (c : Cache) (e : CacheEntry) (answer : Option (ℕ × Cache))
    → IsClock count c
    → current c ≡ some e
    → protected e ≡ false
    → answer ≡ some (c.clock_pointer, advance count c)
    → Chosen count c answer
now-Chosen count c e answer h at cold now = record {
  victim = c.clock_pointer;
  after = advance count c;
  entry = e;
  chosen = now;
  there = at;
  evictable = cold;
  clock = advance-IsClock count c h;
  pointer = refl;
  kept = refl;
}

-- A choice later, from a state with the same entries but for their use bits.
pub later-Chosen :
    (count : ℕ) (c c' : Cache) (answer later : Option (ℕ × Cache))
    → unused c'.cache ≡ unused c.cache
    → answer ≡ later
    → Chosen count c' later
    → Chosen count c answer
later-Chosen count c c' answer later same turn h = record {
  victim = h.victim;
  after = h.after;
  entry = h.entry;
  chosen = turn ∙ h.chosen;
  there = h.there;
  evictable = h.evictable;
  clock = h.clock;
  pointer = h.pointer;
  kept = h.kept ∙ same;
}

pub cleared-IsClock :
    (count : ℕ) (c : Cache) (e : CacheEntry)
    → IsClock count c
    → IsClock count (clear_use (some e) c)
cleared-IsClock count c e h = record {
  size = length-set c.cache c.clock_pointer (with_use false e) ∙ h.size;
  pointer = h.pointer;
}

clock_turn-cold :
    (count : ℕ) (e : CacheEntry) (rest : Option (ℕ × Cache)) (c : Cache)
    → protected e ≡ false
    → clock_turn count (some e) rest c ≡ some (c.clock_pointer, advance count c)
clock_turn-cold count e rest c h = ground arith

clock_turn-hot :
    (count : ℕ) (e : CacheEntry) (rest : Option (ℕ × Cache)) (c : Cache)
    → protected e ≡ true
    → clock_turn count (some e) rest c ≡ rest
clock_turn-hot count e rest c h = ground arith

-- With the pointer in the cache and more turns allowed than there are valid entries in use, the
-- clock ends: the victim is an entry that is invalid or not in use by then, the pointer stands
-- after it, and the entries are as they were but for their use bits.
pub cache_find_victim_clock-Chosen :
    (count fuel : ℕ) (c : Cache)
    → IsClock count c
    → hot c.cache < fuel
    → Chosen count c (cache_find_victim_clock count fuel c)
unfolding cache_find_victim_clock
cache_find_victim_clock-Chosen count zero c h enough = absurd (omega arith)
cache_find_victim_clock-Chosen count (suc fuel) c h enough =
    let (e, at) = get_elem?-lt c.cache c.clock_pointer (omega (arith, h.size, h.pointer)) in
    let turned =
      ap
        (λ o.
          clock_turn count o (cache_find_victim_clock count fuel (advance count (clear_use o c))) c)
        at in
    elim (Bool-cases (protected e)) [
      | inl warm ↦
          let c' = advance count (clear_use (some e) c) in
          later-Chosen count c c' _ (cache_find_victim_clock count fuel c')
            (unused-cleared c.cache c.clock_pointer e at)
            (turned ∙ clock_turn-hot count e (cache_find_victim_clock count fuel c') c warm)
            (cache_find_victim_clock-Chosen count fuel c'
              (advance-IsClock count (clear_use (some e) c) (cleared-IsClock count c e h))
              (omega (arith, hot-cleared c.cache c.clock_pointer e at warm)))
      | inr cold ↦ now-Chosen count c e _ h at cold (turned ∙ clock_turn-cold count e _ c cold)
    ]
