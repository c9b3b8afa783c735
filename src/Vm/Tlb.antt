-- ===== src/Vm/Tlb.antt =====
-- The translation buffer, as kern/arch/mips/vm/tlb-mips161.S hands it out, and vm_tlbshootdown of
-- kern/arch/mips/vm/vm.c for the processor that runs.
use longcat_os.Base.{
  ℕ, zero, suc, Option, none, some, false, not, ◌+◌, ◌*◌, ◌^◌, ◌==◌, ltb, if◌then◌else◌,
}
use longcat_os.Base.Outcome.{M, ◌>>=◌, ◌>>◌, return, get, put, kassert}
use longcat_os.Base.Store.{store}
use longcat_os.Vm.{Vm, TlbEntry, num_tlb, entry, set_entry}

-- `tlb_probe`: the first entry for the page, from `k` on
unfoldable pub probe : ℕ → ℕ → ℕ → (ℕ → TlbEntry) → Option ℕ
probe zero k v tlbs = none
probe (suc rounds) k v tlbs =
    let rest = probe rounds (k + 1) v tlbs in if (tlbs k).hi == v then some k else rest

abbrev pub tlb_probe : Vm → ℕ → Option ℕ
tlb_probe s v = probe num_tlb 0 v s.tlbs

-- `TLBHI_INVALID(k)` and `TLBLO_INVALID()`
abbrev pub tlb_invalid : ℕ → TlbEntry
tlb_invalid k = record { hi = (0x80000 + k) * 2 ^ 12; ppage = 0; valid = false; dirty = false }

abbrev pub tlb_write : ℕ → TlbEntry → M Vm (Unit {0})
tlb_write k e = do s ← get; put (record s { tlbs = store s.tlbs k e })

abbrev pub clear_tlb : ℕ → M Vm (Unit {0})
clear_tlb ppn = do c ← entry ppn; set_entry ppn (record c { tlb = false })

-- Flushing the entry that was found, if any
abbrev pub flush_found : Option ℕ → M Vm (Unit {0})
flush_found none = return tt
flush_found (some k) = do
  s ← get
  let ppn = (s.tlbs k).ppage
  c ← entry ppn
  kassert c.tlb
  tlb_write k (tlb_invalid k)
  kassert (ltb ppn s.num_pages)
  clear_tlb ppn

-- Flushing one page: the branch without `tlbs_flush_all`
unfoldable pub shootdown_one : ℕ → M Vm (Unit {0})
shootdown_one v = do s ← get; flush_found (tlb_probe s v)

-- The loop over all entries
unfoldable pub flush_from : ℕ → ℕ → M Vm (Unit {0})
flush_from zero k = return tt
flush_from (suc rounds) k =
    let rest = flush_from rounds (k + 1) in
    do
      s ← get
      let ppn = (s.tlbs k).ppage
      tlb_write k (tlb_invalid k)
      kassert (ltb ppn s.num_pages)
      clear_tlb ppn
      rest

-- `vm_tlbshootdown`: of one page, or of all
unfoldable pub vm_tlbshootdown : Option ℕ → M Vm (Unit {0})
vm_tlbshootdown none = flush_from num_tlb 0
vm_tlbshootdown (some v) = shootdown_one v

-- The page of an entry is flushed if it is in the buffer; the wait for that has to be over then.
unfoldable pub shoot_page : ℕ → M Vm (Unit {0})
shoot_page ppn = do
  c ← entry ppn
  if c.tlb then vm_tlbshootdown (some c.vaddr) else return tt
  c ← entry ppn
  kassert (not c.tlb)
