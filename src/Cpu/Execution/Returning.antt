-- ===== src/Cpu/Execution/Returning.antt =====
-- That `execution` of cpu/src/instructionCycle.c returns, and with what.
use tpsoaprobado.Base.{ℕ, ◌<◌, ◌≡◌, ◌⊎◌, Bool, none, some, List, get_elem?}
use tpsoaprobado.Cpu.Tlb.{Tlb}
use tpsoaprobado.Cpu.Cache.{CacheEntry, Cache}
use tpsoaprobado.Cpu.Cache.Clock.{IsClock}
use tpsoaprobado.Cpu.Cache.Writeback.{Selection}
use tpsoaprobado.Cpu.Instruction.{Instruction}
use tpsoaprobado.Cpu.Execution.{CpuConfig, Cpu, Peers, Sent, Executed}

-- A selection is refused, or its victim is in the cache.
abbrev Usable : Selection → Type 0
Usable s =
    (s.victim ≡ none)
    ⊎ ((i : ℕ) × (e : CacheEntry) × (s.victim ≡ some i) × (get_elem? s.cache.cache i ≡ some e))

abbrev Returns : Executed → Type 0
Returns o = (r : Bool × Cpu × List Sent) × (o ≡ some r)

module _ (config : CpuConfig) (peers : Peers) where
  open config use {page_size}

  abbrev InCache : Cache → Type 0
  InCache c = 0 < config.cache.entry_count → IsClock config.cache.entry_count c
