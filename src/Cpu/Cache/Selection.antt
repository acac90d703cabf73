-- ===== src/Cpu/Cache/Selection.antt =====
-- The choice of a victim in the page cache of cpu/src/mmu.c, from the clock to the write.
use tpsoaprobado.Base.{
  set, replicate, ℕ, ◌+◌, ◌*◌, ◌%◌, ◌^◌, ◌<◌, ◌≡◌, ◌⊎◌, inl, inr, refl, sym, ap, ◌∙◌, true, ◌==◌,
  Option, none, some, [], get_elem?, if◌then◌else◌, arith, Bool-cases, ==→eq, subst,
}
use tpsoaprobado.Cpu.Tlb.{TlbConfig, Tlb}
use tpsoaprobado.Cpu.Mmu.Translation.{IsValid}
use tpsoaprobado.Cpu.Cache.{
  CacheEntry, CacheConfig, Cache, CacheReplacementAlgorithm, cache_algo_clock, cache_algo_clock_m,
}
use tpsoaprobado.Cpu.Cache.Clock.{IsClock, Chosen, hot-le, cache_find_victim_clock-Chosen}
use tpsoaprobado.Cpu.Cache.ClockM.{cache_find_victim_clock_m-Chosen}
use tpsoaprobado.Cpu.Cache.Cleanup.{page_address}
use tpsoaprobado.Cpu.Cache.Writeback.{
  modified_region, is_dirty, find_victim, Selection, written_back, take_victim, write_back_or_fail,
  take_found, select_victim_entry,
}

-- What a search for a victim comes to. A dirty one is written where the page tables have it, and its
-- content and region are cleared; only with a lookaside buffer, and at the address 0, it is refused.
-- Nothing else changes in the cache.
pub record Selected (walk : ℕ → ℕ → ℕ) (config : TlbConfig) (page_size : ℕ) (after : Cache) (i : ℕ)
    (answer : Option Selection) : Type 0 where
  pub selection : Selection
  pub entry : CacheEntry
  pub returned : answer ≡ some selection
  pub there : get_elem? after.cache i ≡ some entry
  pub valid : IsValid walk config selection.tlb
  pub outcome :
      ((selection.victim ≡ none)
        × (selection.writes ≡ [])
        × (0 < config.entry_count)
        × (is_dirty entry ≡ true)
        × ((walk entry.page entry.pid * page_size) % 2 ^ 32 ≡ 0)
        × (selection.cache ≡ after))
      ⊎ ((selection.victim ≡ some i)
          × (selection.writes ≡ (
              if is_dirty entry
              then modified_region ((walk entry.page entry.pid * page_size) % 2 ^ 32) entry
              else []))
          × (selection.cache ≡ (
              if is_dirty entry
              then record {
                cache = set after.cache i (record entry {
                  content = replicate page_size 0;
                  modified_start = 0;
                  modified_end = 0;
                });
                clock_pointer = after.clock_pointer;
              }
              else after)))

dirty-writes :
    (walk : ℕ → ℕ → ℕ) (page_size address : ℕ) (e : CacheEntry)
    → is_dirty e ≡ true
    → address ≡ (walk e.page e.pid * page_size) % 2 ^ 32
    → modified_region address e
      ≡ (if is_dirty e then modified_region ((walk e.page e.pid * page_size) % 2 ^ 32) e else [])
dirty-writes walk page_size address e dirty same = rw dirty (ap (λ a. modified_region a e) same)

write_back_or_fail-Selected :
    (walk : ℕ → ℕ → ℕ) (config : TlbConfig) (page_size i : ℕ) (e : CacheEntry) (c : Cache)
    (address : ℕ) (s : Tlb)
    → get_elem? c.cache i ≡ some e
    → is_dirty e ≡ true
    → 0 < config.entry_count
    → address ≡ (walk e.page e.pid * page_size) % 2 ^ 32
    → IsValid walk config s
    → Selected walk config page_size c i (some (write_back_or_fail page_size i e c (address, s)))
write_back_or_fail-Selected walk config page_size i e c address s at dirty some_tlb same valid =
    elim (Bool-cases (address == 0)) [
      | inl nothing ↦ record {
        selection = record { victim = none; writes = []; cache = c; tlb = s };
        entry = e;
        returned =
            ap
              (λ b. some (
                if b
                then record { victim = none; writes = []; cache = c; tlb = s }
                else written_back page_size i e c (address, s)))
              nothing;
        there = at;
        valid = valid;
        outcome = inl (refl, refl, some_tlb, dirty, sym same ∙ ==→eq address 0 nothing, refl);
      }
      | inr there ↦ record {
        selection = written_back page_size i e c (address, s);
        entry = e;
        returned =
            ap
              (λ b. some (
                if b
                then record { victim = none; writes = []; cache = c; tlb = s }
                else written_back page_size i e c (address, s)))
              there;
        there = at;
        valid = valid;
        outcome = inr (refl, dirty-writes walk page_size address e dirty same, rw dirty refl);
      }
    ]

take_victim-Selected :
    (walk : ℕ → ℕ → ℕ) (config : TlbConfig) (page_size : ℕ) (s : Tlb) (i : ℕ) (c : Cache)
    (e : CacheEntry)
    → get_elem? c.cache i ≡ some e
    → IsValid walk config s
    → Selected walk config page_size c i (take_victim config page_size walk s i c (some e))
take_victim-Selected walk config page_size s i c e at valid = elim (Bool-cases (is_dirty e)) [
  | inr clean ↦ rw clean (record {
    selection = record { victim = some i; writes = []; cache = c; tlb = s };
    entry = e;
    returned = refl;
    there = at;
    valid = valid;
    outcome = inr (refl, rw clean refl, rw clean refl);
  })
  | inl dirty ↦ rw dirty (elim (Bool-cases (config.entry_count == 0)) [
    | inl no_tlb ↦ rw no_tlb (record {
      selection = written_back page_size i e c ((walk e.page e.pid * page_size) % 2 ^ 32, s);
      entry = e;
      returned = refl;
      there = at;
      valid = valid;
      outcome = inr (refl, dirty-writes walk page_size _ e dirty refl, rw dirty refl);
    })
    | inr some_tlb ↦
        let (same, valid') = page_address walk config page_size e.page e.pid s valid in
        rw some_tlb (
          write_back_or_fail-Selected walk config page_size i e c _ _ at dirty
            (ground (arith, some_tlb)) same valid')
  ])
]

-- A choice that the clocks make, whichever is configured.
pub find_victim-Chosen :
    (config : CacheConfig) (algo : CacheReplacementAlgorithm) (c : Cache)
    → IsClock config.entry_count c
    → Chosen config.entry_count c (find_victim config algo c)
find_victim-Chosen config cache_algo_clock c h =
    cache_find_victim_clock-Chosen config.entry_count (config.entry_count + 1) c h
      (omega (arith, h.size, hot-le c.cache))
find_victim-Chosen config cache_algo_clock_m c h =
    cache_find_victim_clock_m-Chosen config.entry_count (config.entry_count + 1) c h
      (omega (arith, h.size, hot-le c.cache))

-- What the selection leaves, from a cache with the pointer in it and a valid buffer.
pub record Evicted (walk : ℕ → ℕ → ℕ) (config : TlbConfig) (cache_config : CacheConfig)
    (page_size : ℕ) (c : Cache) (answer : Option Selection) : Type 0 where
  pub chosen :
      Chosen cache_config.entry_count c (find_victim cache_config cache_config.replacement_algo c)
  pub selected : Selected walk config page_size chosen.after chosen.victim answer

-- With a valid buffer and the pointer in the cache, a victim is selected, by either algorithm: it
-- is the choice of the clock. If it is dirty, its modified region is written where the page tables
-- have its page, and its content and region are cleared, else nothing is written; the rest of the
-- cache is as the clock leaves it, and the buffer stays valid. Only with a lookaside buffer, for a
-- dirty victim whose address is 0, nothing is written or cleared and there is no victim.
pub select_victim_entry-Evicted :
    (walk : ℕ → ℕ → ℕ) (config : TlbConfig) (cache_config : CacheConfig) (page_size : ℕ) (c : Cache)
    (s : Tlb)
    → IsValid walk config s
    → IsClock cache_config.entry_count c
    → Evicted walk config cache_config page_size c
        (select_victim_entry config cache_config page_size walk c s)
unfolding select_victim_entry
select_victim_entry-Evicted walk config cache_config page_size c s valid clock =
    let h = find_victim-Chosen cache_config cache_config.replacement_algo c clock in
    record {
      chosen = h;
      selected =
          subst (Selected walk config page_size h.after h.victim)
            (sym (
              ap (take_found config page_size walk s) h.chosen
              ∙ ap (take_victim config page_size walk s h.victim h.after) h.there))
            (take_victim-Selected walk config page_size s h.victim h.after h.entry h.there valid);
    }
