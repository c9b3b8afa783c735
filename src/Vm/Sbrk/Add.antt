-- ===== src/Vm/Sbrk/Add.antt =====
-- One page of the loop of sys_sbrk that enlarges the heap.
use longcat_os.Base.{
  ℕ, none, some, true, false, ◌^◌, ◌<◌, ◌≡◌, ◌⊎◌, inl, inr, arith, refl, sym, ap, subst, ◌∙◌, ◌==◌,
  if◌then◌else◌,
}
use longcat_os.Base.Outcome.{ret}
use longcat_os.Vm.{Vm, Pte, pte_at, with_pte}
use longcat_os.Vm.Lookup.{OtherPage, page-cases, pte_to_self, pte_to_other}
use longcat_os.Vm.Coherence.{SameBytes, bytes-same, block_of, bytes_absent}
use longcat_os.Vm.Sound.{Sound, Untouched-TlbOk}
use longcat_os.Vm.Swapin.{Idle}
use longcat_os.Vm.Drop.{Dropping, Dropping-Coherent, dropped-bytes_self, dropped-bytes_other}
use longcat_os.Vm.Fault.{zero_pte, pte_acquire}
use longcat_os.Vm.Whole.{pte_acquire_absent}
use longcat_os.Vm.Sbrk.{heap_pte, ensure_table, grow_page}
use longcat_os.Vm.Sbrk.Table.{Tabled, ensure_table-Tabled}

-- Nothing is at `v`: no entry, or one that names neither frame nor block.
abbrev pub Gap : Vm → ℕ → ℕ → Type 0
Gap s a v = (p : Pte) → pte_at s a v ≡ some p → (p.present ≡ false) × (block_of p ≡ 0)

-- The page at `v` was added.
pub record Grown (cur : ℕ) (s : Vm) (a v : ℕ) (t : Vm) : Type 0 where
  pub sound : Sound cur t
  pub idle : Idle t
  pub same_bytes : SameBytes s t
  pub here : pte_at t a v ≡ some heap_pte
  pub old : (b x : ℕ) (p : Pte) → OtherPage a v b x → pte_at s b x ≡ some p → pte_at t b x ≡ some p
  pub back :
      (b x : ℕ) (p : Pte)
      → OtherPage a v b x
      → pte_at t b x ≡ some p
      → (pte_at s b x ≡ some p) ⊎ (p ≡ zero_pte)

grow_page_lem :
    (s u : Vm) (a v : ℕ) (p : Pte)
    → ensure_table true a v s ≡ ret tt u
    → pte_at u a v ≡ some p
    → pte_acquire a p u ≡ ret none u
    → grow_page true a v s ≡ ret tt (with_pte u a v heap_pte)
unfolding grow_page
grow_page_lem s u a v p e f g = ground (arith, e, f, g)

module _ (cur : ℕ) (s : Vm) (idle : Idle s) (a v : ℕ) (u : Vm) (k : Tabled cur s a v u)
    (gap : Gap u a v) where
  abbrev grown : Vm
  grown = with_pte u a v heap_pte

  grown-Dropping : Dropping u a v k.pte heap_pte grown
  grown-Dropping = record {
    old = k.at;
    new = pte_to_self u.spaces a v heap_pte k.pte k.at;
    absent = refl;
    no_block = refl;
    others = λ b x n. pte_to_other u.spaces a v heap_pte k.pte k.at b x n;
    cores = λ j x. refl;
    freed = λ x. (let y = (gap k.pte k.at).0 in absurd (ground (arith, x, y)));
    bits = λ b x. refl;
    nbits = refl;
    swap_ok = k.sound.coherent.swap_ok;
    same_ram = refl;
    same_disk = refl;
    pages = refl;
    swaps = refl;
    block_zero = k.sound.coherent.block_zero;
  }

  grown_bytes : SameBytes u grown
  grown_bytes b x = elim (page-cases a v b x) [
    | inl m ↦
        sym (bytes-same grown a v b x m)
        ∙ dropped-bytes_self u k.sound.coherent a v k.pte heap_pte grown grown-Dropping
        ∙ sym (
            bytes_absent u.entries u.ram u.disk (pte_at u a v) k.pte k.at (gap k.pte k.at).0
            ∙ ap (λ y. if y == 0 then 0 else u.disk y) (gap k.pte k.at).1)
        ∙ bytes-same u a v b x m
    | inr n ↦ dropped-bytes_other u k.sound.coherent a v k.pte heap_pte grown grown-Dropping b x n
  ]

  grown-Grown : Grown cur s a v grown
  grown-Grown = record {
    sound = record {
      coherent = Dropping-Coherent u k.sound.coherent a v k.pte heap_pte grown grown-Dropping;
      tlb_ok =
          Untouched-TlbOk cur u grown
            (record {
              same_tlbs = refl;
              pages = refl;
              flag = λ j. refl;
              owner = λ j r. refl;
              vaddr = λ j r. refl;
            })
            k.sound.tlb_ok;
    };
    idle = λ j. ap (λ f. (f j).busy) k.entries ∙ idle j;
    same_bytes = λ b x. grown_bytes b x ∙ k.same_bytes b x;
    here = grown-Dropping.new;
    old = λ b x p n e. grown-Dropping.others b x n ∙ k.old b x p e;
    back = λ b x p n e. k.back b x p (sym (grown-Dropping.others b x n) ∙ e);
  }

pub Gap-back :
    (s t : Vm) (a x : ℕ)
    → ((p : Pte) → pte_at t a x ≡ some p → (pte_at s a x ≡ some p) ⊎ (p ≡ zero_pte))
    → Gap s a x
    → Gap t a x
Gap-back s t a x f g p e = elim (f p e) [
  | inl q ↦ g p q
  | inr q ↦ subst (λ y. (y.present ≡ false) × (block_of y ≡ 0)) (sym q) (refl, refl)
]

pub grow_page-Grown :
    (cur : ℕ) (s : Vm)
    → Sound cur s
    → Idle s
    → (a v : ℕ) → v < 2 ^ 31
    → Gap s a v
    → (t : Vm) × (grow_page true a v s ≡ ret tt t) × Grown cur s a v t
grow_page-Grown cur s d idle a v l g =
    let (u, e, k) = ensure_table-Tabled cur s d a v l in
    let h = Gap-back s u a v (k.back a v) g in
    (
      grown cur s idle a v u k h,
      grow_page_lem s u a v k.pte e k.at (pte_acquire_absent a u k.pte (h k.pte k.at).0),
      grown-Grown cur s idle a v u k h,
    )
