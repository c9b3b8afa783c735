-- ===== src/Vm/Layout.antt =====
-- Memory for the kernel while the machine boots: the frames that alloc_kpages hands out one after the
-- other.
use longcat_os.Base.{
  ℕ, zero, suc, Option, none, some, List, [], ◌∷◌, Bool, true, false, ◌+◌, ◌-◌, ◌%◌, ◌^◌, ◌<◌, ◌≤◌,
  ◌≡◌, ◌≢◌, arith, refl, sym, ap, subst, ◌∙◌, ◌==◌, if◌then◌else◌, ℕ_discrete,
}
use longcat_os.Base.Outcome.{ret}
use longcat_os.Base.Store.{store, store_self, store_ne}
use longcat_os.Vm.{Vm, CmEntry, with_entry}
use longcat_os.Vm.Boot.{unused, ram_pages, kvaddr}
use longcat_os.Vm.Paging.{is_free}
use longcat_os.Vm.Kmem.{kernel_entry, find_block, claim, zero_frames, alloc_kpages}
use longcat_os.Vm.Kmem.Whole.{give_block_lem, alloc_kpages_lem, find_pages_found}
use longcat_os.Vm.Start.{kmalloc}

-- The frames below `k` are the kernel's, those from there up to `l` are free, and nobody else has one.
pub record Layout (l k : ℕ) (e : ℕ → CmEntry) : Type 0 where
  pub user : (j : ℕ) → k ≤ j → j < l → e j ≡ unused true
  pub kernel : (j : ℕ) → j < k → (e j).kpage ≡ true
  pub exists : (j : ℕ) → j < k → (e j).exists ≡ true
  pub owner : (j : ℕ) → (e j).owner ≡ none
  pub busy : (j : ℕ) → (e j).busy ≡ false
  pub flag : (j : ℕ) → (e j).tlb ≡ false

-- The memory of a machine that boots
abbrev pub stage : Vm → (ℕ → CmEntry) → (ℕ → ℕ) → ℕ → Vm
stage s e r n = record s { entries = e; ram = r; num_kpages = n }

-- The kernel takes the next frame.
module _ (l k : ℕ) (e : ℕ → CmEntry) (a : Layout l k e) (m : k < l) (first : Bool) where
  abbrev taken : ℕ → CmEntry
  taken = store e k (kernel_entry k first (e k))

  taken_all :
      (P : CmEntry → Type 0)
      → P (kernel_entry k first (e k))
      → (j : ℕ) → (k ≢ j → P (e j))
      → P (taken j)
  taken_all P p j q = elim (ℕ_discrete k j) [
    | yes z ↦ subst (λ i. P (taken i)) z (subst P (sym (store_self e k _)) p)
    | no n ↦ subst P (sym (store_ne e k j _ n)) (q n)
  ]

  taken-Layout : Layout l (k + 1) taken
  taken-Layout = record {
    user = λ j p q. store_ne e k j _ (omega arith) ∙ a.user j (omega arith) q;
    kernel = λ j p. taken_all (λ c. c.kpage ≡ true) refl j (λ n. a.kernel j (omega arith));
    exists = λ j p.
        taken_all (λ c. c.exists ≡ true) (ap (λ (c : CmEntry). c.exists) (a.user k (omega arith) m))
          j (λ n. a.exists j (omega arith));
    owner = λ j. taken_all (λ c. c.owner ≡ none) refl j (λ n. a.owner j);
    busy = λ j. taken_all (λ c. c.busy ≡ false) refl j (λ n. a.busy j);
    flag = λ j. taken_all (λ c. c.tlb ≡ false) refl j (λ n. a.flag j);
  }

claim-Layout :
    (l n k : ℕ) (first : Bool) (s : Vm)
    → Layout l k s.entries
    → k + n ≤ l
    → (e : ℕ → CmEntry) × (claim n k first s ≡ ret tt (record s { entries = e }))
      × Layout l (k + n) e
unfolding claim
claim-Layout l zero k first s a m =
    (s.entries, refl, subst (λ x. Layout l x s.entries) (omega arith) a)
claim-Layout l (suc n) k first s a m =
    let (e, q, b) =
      claim-Layout l n (k + 1) false (with_entry s k (kernel_entry k first (s.entries k)))
        (taken-Layout l k s.entries a (omega arith) first) (omega arith) in
    (e, q, subst (λ x. Layout l x e) (omega arith) b)

zero_frames_ram :
    (n i : ℕ) (s : Vm) → (r : ℕ → ℕ) × (zero_frames n i s ≡ ret tt (record s { ram = r }))
unfolding zero_frames
zero_frames_ram zero i s = (s.ram, refl)
zero_frames_ram (suc n) i s = zero_frames_ram n (i + 1) (record s { ram = store s.ram i 0 })

-- The search passes the frames of the kernel,
find_block_skip :
    (e : ℕ → CmEntry) (n d rounds c r k : ℕ)
    → rounds ≡ r + d
    → c + d ≡ k
    → ((j : ℕ) → c ≤ j → j < k → ((e j).exists ≡ true) × (is_free (e j) ≡ false))
    → find_block n rounds c 0 none e ≡ find_block n r k 0 none e
unfolding find_block
find_block_skip e n zero rounds c r k p q f =
    ap (λ x. find_block n x c 0 none e) {x = rounds} {y = r} (omega arith)
    ∙ ap (λ x. find_block n r x 0 none e) {x = c} {y = k} (omega arith)
find_block_skip e n (suc d) zero c r k p q f = absurd (omega arith)
find_block_skip e n (suc d) (suc rounds) c r k p q f =
    let (x, y) = f c (omega arith) (omega arith) in
    let w : find_block n (suc rounds) c 0 none e ≡ find_block n rounds (c + 1) 0 none e =
      ground (arith, x, y) in
    w
    ∙ find_block_skip e n d rounds (c + 1) r k (omega arith) (omega arith)
        (λ j g h. f j (omega arith) h)

-- and collects the free ones behind them.
find_block_collect :
    (e : ℕ → CmEntry) (n m rounds c found : ℕ) (start : Option ℕ) (b : ℕ)
    → found + suc m ≡ n
    → suc m ≤ rounds
    → (if found == 0 then some c else start) ≡ some b
    → ((j : ℕ) → c ≤ j → j < c + suc m → ((e j).exists ≡ true) × (is_free (e j) ≡ true))
    → find_block n rounds c found start e ≡ (n, some b)
unfolding find_block
find_block_collect e n m zero c found start b p q g f = absurd (omega arith)
find_block_collect e n zero (suc rounds) c found start b p q g f =
    let (x, y) = f c (omega arith) (omega arith) in
    let z : found + 1 ≡ n = omega arith in ground (arith, x, y, z, g)
find_block_collect e n (suc m) (suc rounds) c found start b p q g f =
    let (x, y) = f c (omega arith) (omega arith) in
    let z : found + 1 ≢ n = (λ h. absurd (omega arith)) in
    let next = if found == 0 then some c else start in
    let w : find_block n (suc rounds) c found start e
        ≡ find_block n rounds (c + 1) (found + 1) next e =
      ground (arith, x, y, z) in
    let t : (if found + 1 == 0 then some (c + 1) else next) ≡ some b = ground (arith, g) in
    w
    ∙ find_block_collect e n m rounds (c + 1) (found + 1) next b (omega arith) (omega arith) t
        (λ j h i. f j (omega arith) (omega arith))

find_block-Layout :
    (l k n : ℕ) (e : ℕ → CmEntry)
    → Layout l k e
    → 0 < n
    → k + n ≤ l
    → l ≤ ram_pages
    → find_block n ram_pages 0 0 none e ≡ (n, some k)
find_block-Layout l k zero e a z m r = absurd (omega arith)
find_block-Layout l k (suc n) e a z m r =
    let rest = ram_pages - k in
    find_block_skip e (suc n) k ram_pages 0 rest k (omega arith) (omega arith)
      (λ j p q. let x = a.kernel j q in (a.exists j q, ground (arith, x)))
    ∙ find_block_collect e (suc n) n rest k 0 none k (omega arith) (omega arith) refl (λ j p q.
      let u = a.user j p (omega arith) in (ap (λ (c : CmEntry). c.exists) u, ap is_free u))

-- alloc_kpages takes the frames from `k` on.
alloc_kpages-Layout :
    (io : Bool) (l k n : ℕ) (s : Vm)
    → Layout l k s.entries
    → s.num_kpages ≡ k
    → s.num_pages ≡ l
    → 0 < n
    → k + n + 8 ≤ l
    → l ≤ ram_pages
    → (e : ℕ → CmEntry) × (r : ℕ → ℕ) × (alloc_kpages io n s ≡ ret (kvaddr k) (stage s e r (k + n)))
      × Layout l (k + n) e
alloc_kpages-Layout io l k n s a kp np z m lr =
    let (e, p, b) = claim-Layout l n k true s a (omega arith) in
    let (r, q) = zero_frames_ram n k (record s { entries = e }) in
    let found = find_block-Layout l k n s.entries a z (omega arith) lr in
    let count : (s.num_kpages + n) % 2 ^ 32 ≡ k + n = omega arith in
    (
      e,
      r,
      alloc_kpages_lem io s s n (some k) (omega arith) (omega arith)
            (find_pages_found io s n k found)
          ∙ give_block_lem s (record s { entries = e }) (record s { entries = e; ram = r }) n k p q
          ∙ ap (λ x. ret (kvaddr k) (stage s e r x)) count,
      b,
    )

-- The pages of a list of calls
abbrev pub pages : List ℕ → ℕ
pages [] = 0
pages (n ∷ calls) = n + pages calls

-- No call asks for no page.
abbrev pub Positive : List ℕ → Type 0
Positive [] = Unit
Positive (n ∷ calls) = (0 < n) × Positive calls

pub kmalloc-Layout :
    (io : Bool) (l : ℕ) (calls : List ℕ) (k : ℕ) (s : Vm)
    → Positive calls
    → Layout l k s.entries
    → s.num_kpages ≡ k
    → s.num_pages ≡ l
    → k + pages calls + 8 ≤ l
    → l ≤ ram_pages
    → (e : ℕ → CmEntry) × (r : ℕ → ℕ) × (kmalloc io calls s
        ≡ ret true (stage s e r (k + pages calls)))
      × Layout l (k + pages calls) e
unfolding kmalloc
kmalloc-Layout io l [] k s z a kp np m lr = (
  s.entries,
  s.ram,
  ap (λ x. ret true (stage s s.entries s.ram x)) {x = s.num_kpages} {y = k + 0} (omega arith),
  subst (λ x. Layout l x s.entries) (omega arith) a,
)
kmalloc-Layout io l (n ∷ calls) k s (z, zs) a kp np m lr =
    let (e, r, q, b) = alloc_kpages-Layout io l k n s a kp np z (omega arith) lr in
    let (e', r', q', b') =
      kmalloc-Layout io l calls (k + n) (stage s e r (k + n)) zs b refl np (omega arith) lr in
    let sum : k + n + pages calls ≡ k + (n + pages calls) = omega arith in
    let nz : kvaddr k ≢ 0 = (λ x. absurd (omega arith)) in
    (
      e',
      r',
      ground (arith, q, nz, q') ∙ ap (λ x. ret true (stage s e' r' x)) sum,
      subst (λ x. Layout l x e') sum b',
    )
