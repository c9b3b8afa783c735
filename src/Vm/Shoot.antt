-- ===== src/Vm/Shoot.antt =====
-- Before a frame changes hands its page leaves the translation buffer.
use longcat_os.Base.{
  if◌then◌else◌, not, ℕ, some, true, false, ◌≡◌, arith, refl, sym, ap, ◌∙◌, Bool-cases, inl, inr,
}
use longcat_os.Base.Outcome.{M, ret, return, kassert, ◌>>=◌}
use longcat_os.Base.Gives.{bind-ret}
use longcat_os.Base.Store.{store-proj}
use longcat_os.Vm.{Vm, CmEntry, num_tlb, entry}
use longcat_os.Vm.Coherence.{Coherent}
use longcat_os.Vm.Like.{Like, Like-refl, Like-Coherent}
use longcat_os.Vm.Sound.{TlbOk, Sound, Kept, Like-Kept}
use longcat_os.Vm.Tlb.{tlb_probe, vm_tlbshootdown, shoot_page}
use longcat_os.Vm.Flush.{
  probe_lem, flushed, flushed-Like, shootdown_one_lem, flushed-TlbOk, cleared,
}

-- The page of frame `i` is not in the buffer any more, and nothing else happened.
pub record Shot (cur : ℕ) (s : Vm) (i : ℕ) (t : Vm) : Type 0 where
  pub like : Like s t
  pub tlb_ok : TlbOk cur t
  pub flag : (t.entries i).tlb ≡ false
  pub busy : (j : ℕ) → (t.entries j).busy ≡ (s.entries j).busy
  pub clock : t.clock_head ≡ s.clock_head

pub shoot_page_skip : (s : Vm) (i : ℕ) → (s.entries i).tlb ≡ false → shoot_page i s ≡ ret tt s
unfolding shoot_page
shoot_page_skip s i e = ground (arith, e)

-- The shootdown without the test at its end
abbrev pub flush_frame : Vm → ℕ → M Vm (Unit {0})
flush_frame s i =
    if (s.entries i).tlb then vm_tlbshootdown (some (s.entries i).vaddr) else return tt

shoot_page-flush_frame :
    (s t : Vm) (i : ℕ)
    → flush_frame s i s ≡ ret tt t
    → (t.entries i).tlb ≡ false
    → shoot_page i s ≡ ret tt t
unfolding shoot_page
shoot_page-flush_frame s t i e f =
    bind-ret (flush_frame s i) (λ x. do c ← entry i; kassert (not c.tlb)) s t tt e
    ∙ ap (λ b. kassert (not b) t) f

module _ (cur : ℕ) (s : Vm) (ok : TlbOk cur s) (i : ℕ) where
  Shot-flushed :
      (s.entries i).tlb ≡ true → (t : Vm) × (flush_frame s i s ≡ ret tt t) × Shot cur s i t
  unfolding vm_tlbshootdown
  Shot-flushed e =
      let (k, l, h, p, b, x) = ok.tracked i e in
      let names : (s.tlbs k).hi ≡ (s.entries (s.tlbs k).ppage).vaddr =
        h ∙ ap (λ x. (s.entries x).vaddr) (sym p) in
      let found : tlb_probe s (s.entries i).vaddr ≡ some k =
        probe_lem num_tlb 0 (s.entries i).vaddr k s.tlbs (omega arith) l h
          (λ j' a m q. absurd (omega (arith, m, ok.distinct j' k (omega arith) l (q ∙ sym h)))) in
      let flag : ((flushed s k).entries i).tlb ≡ false =
        ap (λ x. ((flushed s k).entries x).tlb) (sym p) ∙ cleared cur s ok k l in
      (
        flushed s k,
        (let g =
              shootdown_one_lem s (s.entries i).vaddr k found (ap (λ x. (s.entries x).tlb) p ∙ e)
                (omega (arith, p, b)) in
            ground (arith, e, g)),
        record {
          like = flushed-Like s k;
          tlb_ok = flushed-TlbOk cur s ok k l names;
          flag = flag;
          busy = λ j. store-proj (λ (x : CmEntry). x.busy) s.entries (s.tlbs k).ppage j _ refl;
          clock = refl;
        },
      )

  pub flush_frame-Shot : (t : Vm) × (flush_frame s i s ≡ ret tt t) × Shot cur s i t
  flush_frame-Shot = elim (Bool-cases (s.entries i).tlb) [
    | inl e ↦ Shot-flushed e
    | inr e ↦ (
      s,
      ground (arith, e),
      record { like = Like-refl s; tlb_ok = ok; flag = e; busy = λ j. refl; clock = refl },
    )
  ]

  -- Where the coremap and the translation buffer agree, the shootdown of a frame never panics, takes
  -- its page out of the buffer and leaves them in agreement.
  pub shoot_page-Shot : (t : Vm) × (shoot_page i s ≡ ret tt t) × Shot cur s i t
  shoot_page-Shot =
      let (t, e, h) = flush_frame-Shot in (t, shoot_page-flush_frame s t i e h.flag, h)

pub Shot-Kept : (cur : ℕ) (s : Vm) (i : ℕ) (t : Vm) → Shot cur s i t → Kept s t
Shot-Kept cur s i t h = Like-Kept s t h.like h.busy h.clock

pub Shot-Sound : (cur : ℕ) (s : Vm) (i : ℕ) (t : Vm) → Coherent s → Shot cur s i t → Sound cur t
Shot-Sound cur s i t c h = record { coherent = Like-Coherent s t h.like c; tlb_ok = h.tlb_ok }
