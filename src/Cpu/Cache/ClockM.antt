-- ===== src/Cpu/Cache/ClockM.antt =====
-- The enhanced clock of cpu/src/mmu.c ends with a victim that may go.
use tpsoaprobado.Base.{
  ℕ, zero, suc, ◌+◌, ◌%◌, ◌≤◌, ◌<◌, ◌≡◌, inl, inr, refl, sym, ap, ap₂, ◌∙◌, subst, Bool, true,
  false, not, ◌&&◌, ◌||◌, Option, some, some_inj, List, [], ◌∷◌, bit, length, get_elem?,
  get_elem?-lt, set, arith, Bool-cases,
}
use native.Mathlib.Nat.{mod-add-mod, mod-eq_of_lt, add-mod_right}
use tpsoaprobado.Cpu.Cache.{
  CacheEntry, Cache, Pass, found_victim, no_victim, no_entry, with_use, advance, current, clear_use,
  first_turn, first_pass, second_turn, second_pass, after_pass, cache_find_victim_clock_m,
}
use tpsoaprobado.Cpu.Cache.Clock.{
  protected, hot, hot-cleared, unused, unused-cleared, IsClock, Chosen, advance-IsClock,
  cleared-IsClock, now-Chosen, later-Chosen,
}

-- The entries that the first pass leaves.
abbrev stays : CacheEntry → Bool
stays e = e.is_valid && (e.use_bit || e.modified_bit)

first_turn-goes :
    (count : ℕ) (e : CacheEntry) (rest : Pass) (c : Cache)
    → stays e ≡ false
    → (first_turn count (some e) rest c ≡ found_victim c.clock_pointer (advance count c))
      × (protected e ≡ false)
first_turn-goes count e rest c h = (ground arith, ground arith)

first_turn-stays :
    (count : ℕ) (e : CacheEntry) (rest : Pass) (c : Cache)
    → stays e ≡ true
    → first_turn count (some e) rest c ≡ rest
first_turn-stays count e rest c h = ground arith

-- How the first pass ends.
abbrev FirstEnd : ℕ → ℕ → Cache → Pass → Type 0
FirstEnd count turns c (found_victim v c') = Chosen count c (some (v, c'))
FirstEnd count turns c (no_victim c') =
    (c'.cache ≡ c.cache)
    × (c'.clock_pointer ≡ (c.clock_pointer + turns) % count)
    × ((e : CacheEntry) → 0 < turns → current c ≡ some e → stays e ≡ true)
FirstEnd count turns c no_entry = ⊥

later-FirstEnd :
    (count turns : ℕ) (c : Cache) (e : CacheEntry) (p : Pass)
    → current c ≡ some e
    → stays e ≡ true
    → FirstEnd count turns (advance count c) p
    → FirstEnd count (suc turns) c p
later-FirstEnd count turns c e (found_victim v c') at h end =
    later-Chosen count c (advance count c) _ _ refl refl end
later-FirstEnd count turns c e (no_victim c') at h (same, pointer, more) = (
  same,
  pointer ∙ mod-add-mod (c.clock_pointer + 1) count turns ∙ ap (λ n. n % count) (omega arith),
  λ e' some_turns at'. ap stays (some_inj (sym at' ∙ at)) ∙ h,
)
later-FirstEnd count turns c e no_entry at h end = end

first_pass-FirstEnd :
    (count turns : ℕ) (c : Cache)
    → IsClock count c
    → FirstEnd count turns c (first_pass count turns c)
unfolding first_pass
first_pass-FirstEnd count zero c h = (
  refl,
  sym (mod-eq_of_lt (h.pointer)) ∙ ap (λ n. n % count) (omega arith),
  λ e some_turns at. absurd (omega arith),
)
first_pass-FirstEnd count (suc turns) c h =
    let (e, at) = get_elem?-lt c.cache c.clock_pointer (omega (arith, h.size, h.pointer)) in
    let rest = first_pass count turns (advance count c) in
    let turned = ap (λ o. first_turn count o rest c) at in
    elim (Bool-cases (stays e)) [
      | inl remains ↦
          subst (FirstEnd count (suc turns) c)
            (sym (turned ∙ first_turn-stays count e rest c remains))
            (later-FirstEnd count turns c e rest at remains
              (first_pass-FirstEnd count turns (advance count c) (advance-IsClock count c h)))
      | inr goes ↦
          let (found, cold) = first_turn-goes count e rest c goes in
          subst (FirstEnd count (suc turns) c) (sym (turned ∙ found))
            (now-Chosen count c e _ h at cold refl)
    ]

-- How the second pass ends: when it finds no victim, no entry is protected that was not, and the
-- first entry that it met is one less, if the first pass had left it.
abbrev SecondEnd : ℕ → ℕ → Cache → Pass → Type 0
SecondEnd count turns c (found_victim v c') = Chosen count c (some (v, c'))
SecondEnd count turns c (no_victim c') =
    (unused c'.cache ≡ unused c.cache)
    × IsClock count c'
    × (hot c'.cache ≤ hot c.cache)
    × ((e : CacheEntry)
        → 0 < turns
        → current c ≡ some e
        → stays e ≡ true
        → hot c'.cache < hot c.cache)
SecondEnd count turns c no_entry = ⊥

later-SecondEnd :
    (count turns : ℕ) (c c₁ : Cache) (e : CacheEntry) (p : Pass)
    → current c ≡ some e
    → unused c₁.cache ≡ unused c.cache
    → hot c₁.cache ≤ hot c.cache
    → (stays e ≡ true → hot c₁.cache < hot c.cache)
    → SecondEnd count turns c₁ p
    → SecondEnd count (suc turns) c p
later-SecondEnd count turns c c₁ e (found_victim v c') at same le lt end =
    later-Chosen count c c₁ _ _ same refl end
later-SecondEnd count turns c c₁ e (no_victim c') at same le lt (same', clock, le', more) = (
  same' ∙ same,
  clock,
  omega (arith, le, le'),
  λ e' some_turns at' h. omega (arith, le', lt (ap stays (some_inj (sym at ∙ at')) ∙ h)),
)
later-SecondEnd count turns c c₁ e no_entry at same le lt end = end

hot-kept :
    (es : List CacheEntry) (i : ℕ) (e : CacheEntry)
    → get_elem? es i ≡ some e
    → protected e ≡ false
    → hot (set es i (with_use false e)) ≡ hot es
hot-kept [] i e there h = refl
hot-kept (x ∷ es) zero e there h =
    let same = ap protected (some_inj there) ∙ h in omega (arith, ap bit (cold e), ap bit same)
  where
    cold : (e : CacheEntry) → protected (with_use false e) ≡ false
    cold e = ground arith
hot-kept (x ∷ es) (suc i) e there h = omega (arith, hot-kept es i e there h)

second_turn-victim :
    (count : ℕ) (e : CacheEntry) (cleared kept : Pass) (c : Cache)
    → e.is_valid ≡ true
    → e.use_bit ≡ false
    → e.modified_bit ≡ true
    → (second_turn count (some e) cleared kept c ≡ found_victim c.clock_pointer (advance count c))
      × (protected e ≡ false)
second_turn-victim count e cleared kept c valid cold dirty = (ground arith, ground arith)

second_turn-cleared :
    (count : ℕ) (e : CacheEntry) (cleared kept : Pass) (c : Cache)
    → e.is_valid ≡ true
    → (not e.use_bit && e.modified_bit) ≡ false
    → second_turn count (some e) cleared kept c ≡ cleared
second_turn-cleared count e cleared kept c valid other = ground arith

second_turn-kept :
    (count : ℕ) (e : CacheEntry) (cleared kept : Pass) (c : Cache)
    → e.is_valid ≡ false
    → second_turn count (some e) cleared kept c ≡ kept
second_turn-kept count e cleared kept c invalid = ground arith

stays-hot :
    (e : CacheEntry)
    → protected e ≡ false
    → (not e.use_bit && e.modified_bit) ≡ false
    → stays e ≡ true
    → ⊥
stays-hot e cold other h = ground arith

valid-stays : (e : CacheEntry) → e.is_valid ≡ false → stays e ≡ true → ⊥
valid-stays e invalid h = ground arith

and-parts : (a b : Bool) → (not a && b) ≡ true → (a ≡ false) × (b ≡ true)
and-parts a b h = (ground arith, ground arith)

second_pass-SecondEnd :
    (count turns : ℕ) (c : Cache)
    → IsClock count c
    → SecondEnd count turns c (second_pass count turns c)
unfolding second_pass
second_pass-SecondEnd count zero c h =
    (refl, h, omega arith, λ e some_turns at. absurd (omega arith))
second_pass-SecondEnd count (suc turns) c h =
    let (e, at) = get_elem?-lt c.cache c.clock_pointer (omega (arith, h.size, h.pointer)) in
    let p = c.clock_pointer in
    let c₁ = advance count (clear_use (some e) c) in
    let c₂ = advance count c in
    let turned =
      ap
        (λ o.
          second_turn count o (second_pass count turns (advance count (clear_use o c)))
            (second_pass count turns c₂) c)
        at in
    let cleared = second_pass count turns c₁ in
    let kept = second_pass count turns c₂ in
    elim (Bool-cases e.is_valid) [
      | inr invalid ↦
          subst (SecondEnd count (suc turns) c)
            (sym (turned ∙ second_turn-kept count e cleared kept c invalid))
            (later-SecondEnd count turns c c₂ e kept at refl (omega arith)
              (λ s. absurd (valid-stays e invalid s))
              (second_pass-SecondEnd count turns c₂ (advance-IsClock count c h)))
      | inl valid ↦ elim (Bool-cases (not e.use_bit && e.modified_bit)) [
        | inl victim ↦
            let (cold, dirty) = and-parts e.use_bit e.modified_bit victim in
            let (found, loose) = second_turn-victim count e cleared kept c valid cold dirty in
            subst (SecondEnd count (suc turns) c) (sym (turned ∙ found))
              (now-Chosen count c e _ h at loose refl)
        | inr other ↦
            subst (SecondEnd count (suc turns) c)
              (sym (turned ∙ second_turn-cleared count e cleared kept c valid other))
              (later-SecondEnd count turns c c₁ e cleared at (unused-cleared c.cache p e at)
                (elim (Bool-cases (protected e)) [
                  | inl warm ↦ omega (arith, hot-cleared c.cache p e at warm)
                  | inr cold ↦ omega (arith, hot-kept c.cache p e at cold)
                ])
                (λ s. elim (Bool-cases (protected e)) [
                  | inl warm ↦ omega (arith, hot-cleared c.cache p e at warm)
                  | inr cold ↦ absurd (stays-hot e cold other s)
                ])
                (second_pass-SecondEnd count turns c₁
                  (advance-IsClock count (clear_use (some e) c) (cleared-IsClock count c e h))))
      ]
    ]

back : (p count : ℕ) → p < count → (p + count) % count ≡ p
back p count lt = add-mod_right p count ∙ mod-eq_of_lt lt

module _ (count : ℕ) (c : Cache) (h : IsClock count c) (k : Cache → Option (ℕ × Cache))
    (next : (c' : Cache)
      → IsClock count c'
      → hot c'.cache < hot c.cache
      → Chosen count c' (k c')) where
  -- The second pass after a first one that left every entry, and the rounds after it.
  after-second :
      (c₁ : Cache)
      → c₁.cache ≡ c.cache
      → c₁.clock_pointer ≡ c.clock_pointer
      → ((e : CacheEntry) → current c ≡ some e → stays e ≡ true)
      → (p : Pass) → SecondEnd count count c₁ p
      → Chosen count c (after_pass p k)
  after-second c₁ same pointer left (found_victim v c') end =
      later-Chosen count c c₁ _ _ (ap unused same) refl end
  after-second c₁ same pointer left (no_victim c') (kept, clock, le, lt) =
      let (e, at) = get_elem?-lt c.cache c.clock_pointer (omega (arith, h.size, h.pointer)) in
      later-Chosen count c c' _ _ (kept ∙ ap unused same) refl (
        next c' clock (
          omega (
            arith,
            ap hot same,
            lt e (omega (arith, h.pointer)) (ap₂ get_elem? same pointer ∙ at) (left e at),
          )))
  after-second c₁ same pointer left no_entry end = absurd end

  after-first :
      (p : Pass)
      → FirstEnd count count c p
      → Chosen count c (after_pass p (λ c₁. after_pass (second_pass count count c₁) k))
  after-first (found_victim v c') end = end
  after-first (no_victim c₁) (same, pointer, left) =
      let at = pointer ∙ back c.clock_pointer count h.pointer in
      after-second c₁ same at (λ e at'. left e (omega (arith, h.pointer)) at')
        (second_pass count count c₁)
        (second_pass-SecondEnd count count c₁
          (record { size = ap length same ∙ h.size; pointer = omega (arith, at, h.pointer) }))
  after-first no_entry end = absurd end

-- With the pointer in the cache and more rounds allowed than there are valid entries in use, the
-- enhanced clock ends: the victim is an entry that is invalid or not in use by then, the pointer
-- stands after it, and the entries are as they were but for their use bits.
pub cache_find_victim_clock_m-Chosen :
    (count fuel : ℕ) (c : Cache)
    → IsClock count c
    → hot c.cache < fuel
    → Chosen count c (cache_find_victim_clock_m count fuel c)
unfolding cache_find_victim_clock_m
cache_find_victim_clock_m-Chosen count zero c h enough = absurd (omega arith)
cache_find_victim_clock_m-Chosen count (suc fuel) c h enough =
    after-first count c h (cache_find_victim_clock_m count fuel)
      (λ c' clock less. cache_find_victim_clock_m-Chosen count fuel c' clock (omega arith))
      (first_pass count count c) (first_pass-FirstEnd count count c h)
