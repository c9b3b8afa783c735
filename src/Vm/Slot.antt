-- ===== src/Vm/Slot.antt =====
-- The entry of the buffer that load_tlb takes, and the state when it has written it.
use longcat_os.Base.{
  ℕ, Bool, true, false, ◌+◌, ◌%◌, ◌^◌, ◌≡◌, ◌≢◌, arith, refl, sym, ap, ◌∙◌, if◌then◌else◌,
  ℕ_discrete,
}
use longcat_os.Base.Outcome.{ret, return, ◌>>◌}
use longcat_os.Base.Gives.{bind-ret}
use longcat_os.Base.Store.{store, store_self, store_ne, store-proj}
use longcat_os.Vm.{Vm, CmEntry, with_entry}
use longcat_os.Vm.Like.{Like, Like-refl, Like-trans, entry-Like, rest-Like}
use longcat_os.Vm.Sound.{Kept, Like-Kept}
use longcat_os.Vm.Tlb.{tlb_probe}
use longcat_os.Vm.Fault.{slot_of, set_dirty, enter_tlb, load_tlb}
use longcat_os.Vm.Load.{Loaded}

-- Entry `k` may be overwritten.
pub record Slotted (u : Vm) (i k : ℕ) (s : Vm) : Type 0 where
  pub like : Like u s
  pub tlbs : s.tlbs ≡ u.tlbs
  pub owner : (x : ℕ) → (s.entries x).owner ≡ (u.entries x).owner
  pub vaddr : (x : ℕ) → (s.entries x).vaddr ≡ (u.entries x).vaddr
  pub busy : (x : ℕ) → (s.entries x).busy ≡ (u.entries x).busy
  pub clock : s.clock_head ≡ u.clock_head
  pub old : (x : ℕ) → (s.entries x).tlb ≡ true → (u.entries x).tlb ≡ true
  pub told :
      (x : ℕ) → i ≢ x → (s.entries x).tlb ≡ true → (u.tlbs k).valid ≡ true → (u.tlbs k).ppage ≢ x
  pub kept :
      (x : ℕ)
      → ((u.tlbs k).valid ≡ true → (u.tlbs k).ppage ≢ x)
      → (u.entries x).tlb ≡ true
      → (s.entries x).tlb ≡ true

pub Slotted-same :
    (u : Vm) (i k : ℕ) → ((u.tlbs k).valid ≡ true → (u.tlbs k).ppage ≡ i) → Slotted u i k u
Slotted-same u i k f = record {
  like = Like-refl u;
  tlbs = refl;
  owner = λ x. refl;
  vaddr = λ x. refl;
  busy = λ x. refl;
  clock = refl;
  old = λ x e. e;
  told = λ x n e v q. n (sym (f v) ∙ q);
  kept = λ x n e. e;
}

abbrev pub told_frame : Vm → ℕ → Vm
told_frame u k = with_entry u (u.tlbs k).ppage (record (u.entries (u.tlbs k).ppage) { tlb = false })

told_self : (u : Vm) (k : ℕ) → ((told_frame u k).entries (u.tlbs k).ppage).tlb ≡ false
told_self u k = ap (λ (x : CmEntry). x.tlb) (store_self u.entries (u.tlbs k).ppage _)

told_other : (u : Vm) (k x : ℕ) → (u.tlbs k).ppage ≢ x → (told_frame u k).entries x ≡ u.entries x
told_other u k x n = store_ne u.entries (u.tlbs k).ppage x _ n

told_flag : (u : Vm) (k x : ℕ) → ((told_frame u k).entries x).tlb ≡ true → (u.tlbs k).ppage ≢ x
told_flag u k x e q =
    absurd (ground (arith, e, told_self u k, ap (λ y. ((told_frame u k).entries y).tlb) q))

pub Slotted-told : (u : Vm) (i k : ℕ) → (u.tlbs k).valid ≡ true → Slotted u i k (told_frame u k)
Slotted-told u i k v = record {
  like = entry-Like u (u.tlbs k).ppage _ refl;
  tlbs = refl;
  owner = λ x. store-proj (λ (y : CmEntry). y.owner) u.entries (u.tlbs k).ppage x _ refl;
  vaddr = λ x. store-proj (λ (y : CmEntry). y.vaddr) u.entries (u.tlbs k).ppage x _ refl;
  busy = λ x. store-proj (λ (y : CmEntry). y.busy) u.entries (u.tlbs k).ppage x _ refl;
  clock = refl;
  old = λ x e. sym (ap (λ (y : CmEntry). y.tlb) (told_other u k x (told_flag u k x e))) ∙ e;
  told = λ x n e w. told_flag u k x e;
  kept = λ x n e. ap (λ (y : CmEntry). y.tlb) (told_other u k x (n v)) ∙ e;
}

-- The frame is marked dirty, or not.
pub record Marked (s t : Vm) : Type 0 where
  pub like : Like s t
  pub tlbs : t.tlbs ≡ s.tlbs
  pub owner : (x : ℕ) → (t.entries x).owner ≡ (s.entries x).owner
  pub vaddr : (x : ℕ) → (t.entries x).vaddr ≡ (s.entries x).vaddr
  pub busy : (x : ℕ) → (t.entries x).busy ≡ (s.entries x).busy
  pub flag : (x : ℕ) → (t.entries x).tlb ≡ (s.entries x).tlb
  pub clock : t.clock_head ≡ s.clock_head

abbrev dirtied : Vm → ℕ → Vm
dirtied s i = record s {
  num_dirty = if (s.entries i).dirty then s.num_dirty else (s.num_dirty + 1) % 2 ^ 32;
  entries = store s.entries i (record (s.entries i) { dirty = true });
}

pub mark :
    (w : Bool) (s : Vm) (i : ℕ)
    → (t : Vm) × ((if w then set_dirty i else return tt) s ≡ ret tt t) × Marked s t
mark false s i = (
  s,
  refl,
  record {
    like = Like-refl s;
    tlbs = refl;
    owner = λ x. refl;
    vaddr = λ x. refl;
    busy = λ x. refl;
    flag = λ x. refl;
    clock = refl;
  },
)
mark true s i = (
  dirtied s i,
  refl,
  record {
    like =
        Like-trans s (record s { num_dirty = (dirtied s i).num_dirty }) (dirtied s i)
          (rest-Like s s.num_kpages (dirtied s i).num_dirty s.clock_head s.tlbs)
          (entry-Like (record s { num_dirty = (dirtied s i).num_dirty }) i _ refl);
    tlbs = refl;
    owner = λ x. store-proj (λ (y : CmEntry). y.owner) s.entries i x _ refl;
    vaddr = λ x. store-proj (λ (y : CmEntry). y.vaddr) s.entries i x _ refl;
    busy = λ x. store-proj (λ (y : CmEntry). y.busy) s.entries i x _ refl;
    flag = λ x. store-proj (λ (y : CmEntry). y.tlb) s.entries i x _ refl;
    clock = refl;
  },
)

abbrev pub entered : Vm → ℕ → ℕ → ℕ → Bool → Vm
entered s i v k w =
    with_entry
      (record s { tlbs = store s.tlbs k (record { hi = v; ppage = i; valid = true; dirty = w }) }) i
      (record (s.entries i) { tlb = true })

pub load_tlb_lem :
    (u s t : Vm) (random v i k : ℕ) (w : Bool)
    → slot_of random (tlb_probe u v) u ≡ ret k s
    → (if w then set_dirty i else return tt) s ≡ ret tt t
    → load_tlb random w v i u ≡ ret tt (entered t i v k w)
unfolding load_tlb
load_tlb_lem u s t random v i k w e f =
    bind-ret (slot_of random (tlb_probe u v))
      (λ k. (if w then set_dirty i else return tt) >> enter_tlb w v i k) u s k e
    ∙ bind-ret (if w then set_dirty i else return tt) (λ x. enter_tlb w v i k) s t tt f

module _ (u s t : Vm) (i v k : ℕ) (w : Bool) (a : Slotted u i k s) (b : Marked s t) where
  abbrev final : Vm
  final = entered t i v k w

  final_self : (final.entries i).tlb ≡ true
  final_self = ap (λ (x : CmEntry). x.tlb) (store_self t.entries i _)

  final_flag : (x : ℕ) → i ≢ x → (final.entries x).tlb ≡ (s.entries x).tlb
  final_flag x n = ap (λ (y : CmEntry). y.tlb) (store_ne t.entries i x _ n) ∙ b.flag x

  final_kept : (x : ℕ) → (s.entries x).tlb ≡ true → (final.entries x).tlb ≡ true
  final_kept x e = elim (ℕ_discrete i x) [
    | yes q ↦ ap (λ y. (final.entries y).tlb) (sym q) ∙ final_self
    | no n ↦ final_flag x n ∙ e
  ]

  pub final-Loaded : Loaded u i v k w final
  final-Loaded = record {
    tlbs =
        ap (λ f. store f k (record { hi = v; ppage = i; valid = true; dirty = w }))
          (b.tlbs ∙ a.tlbs);
    owner = λ x. store-proj (λ (y : CmEntry). y.owner) t.entries i x _ refl ∙ b.owner x ∙ a.owner x;
    vaddr = λ x. store-proj (λ (y : CmEntry). y.vaddr) t.entries i x _ refl ∙ b.vaddr x ∙ a.vaddr x;
    pages = b.like.shape.same_pages ∙ a.like.shape.same_pages;
    flag = final_self;
    old = λ x n e. a.old x (sym (final_flag x n) ∙ e);
    told = λ x n e. a.told x n (sym (final_flag x n) ∙ e);
    kept = λ x n e. final_kept x (a.kept x n e);
  }

  pub final-Like : Like u final
  final-Like = Like-trans u s final a.like (
      Like-trans s t final b.like (
        Like-trans t (record t { tlbs = final.tlbs }) final
          (rest-Like t t.num_kpages t.num_dirty t.clock_head final.tlbs)
          (entry-Like (record t { tlbs = final.tlbs }) i _ refl)))

  pub final-Kept : Kept u final
  final-Kept =
      Like-Kept u final final-Like
        (λ x. store-proj (λ (y : CmEntry). y.busy) t.entries i x _ refl ∙ b.busy x ∙ a.busy x)
        (b.clock ∙ a.clock)
