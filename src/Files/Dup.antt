-- ===== src/Files/Dup.antt =====
-- `sys_dup2` against the reference counts.
use longcat_os.Base.{
  ℕ, some, ◌+◌, ◌-◌, ◌%◌, ◌^◌, ◌<◌, ◌≡◌, ◌≢◌, refl, arith, get_elem?, set, lt-length_of_get, ◌==◌,
  subst, sym, ◌∙◌, if◌then◌else◌, ℕ_discrete, get_elem?-set_self, get_elem?-set_ne,
}
use longcat_os.Base.Int.{ℤ, pos_part}
use longcat_os.Base.Outcome.{ret}
use longcat_os.Kernel.{
  Kernel, Handle, Proc, open_max, fd_free, slot, proc_at, set_slot, set_fd_lem, get_fd_lem,
}
use longcat_os.Files.{fh_incref, ft_get, valid_fd}
use longcat_os.Files.Calls.{sys_dup2, dup_onto}
use longcat_os.Files.Move.{moved, moved-Inv}
use longcat_os.Files.Close.{dropped, dropped-Inv, sys_close_used}
use longcat_os.Files.Refs.{
  refs, Inv, Entry, refs-bound, slot_of_fd, lt_of_slot, proc_at-set_self, valid_fd-lt, fd-get,
  slot-ne-free,
}

-- The tables after descriptor `n` of process `i` has come to share slot `a`.
abbrev pub shared : Kernel → ℕ → Proc → ℕ → ℕ → Handle → Kernel
shared k i p n a h = moved k i p n a a (some (record h { refcount = h.refcount + 1 }))

-- No slot has so many references beyond those of descriptors that a count could wrap.
abbrev pub Few : (ℕ → ℕ) → Type 0
Few extra = (i : ℕ) → i ≢ fd_free → extra i < 2 ^ 31

-- Reference counts are far from the end of `uint32_t`.
pub refcount_bound :
    (extra : ℕ → ℕ) (k : Kernel) (a : ℕ) (h : Handle)
    → Inv extra k
    → Few extra
    → slot k a ≡ some h
    → h.refcount < 2 ^ 32 - 1
refcount_bound extra k a h v few es = omega (
  arith,
  (subst (Entry (refs a k.procs + extra a)) es (v.balanced a na)).0,
  few a na,
  refs-bound a k.procs v.sized.fds_size,
  v.sized.procs_size,
)
  where
    na : a ≢ fd_free
    na = omega (arith, slot-ne-free extra k a h v es)

pub shared-Inv :
    (extra : ℕ → ℕ) (k : Kernel) (i n a : ℕ) (p : Proc) (h : Handle)
    → Inv extra k
    → proc_at k i ≡ some p
    → get_elem? p.fds n ≡ some fd_free
    → slot k a ≡ some h
    → Inv extra (shared k i p n a h)
shared-Inv extra k i n a p h v ep ef es =
    moved-Inv extra extra k v i p n fd_free a ep ef a _ (lt_of_slot k a h es)
      (λ m m' e b. ground (arith, subst (Entry (m + extra a)) es b, slot-ne-free extra k a h v es))
      (λ j nj d. ground arith) (omega (arith, slot-ne-free extra k a h v es))

pub fh_incref_lem :
    (extra : ℕ → ℕ) (k : Kernel) (a : ℕ) (h : Handle)
    → Inv extra k
    → Few extra
    → slot k a ≡ some h
    → fh_incref a k ≡ ret tt (set_slot k a (some (record h { refcount = h.refcount + 1 })))
unfolding fh_incref
fh_incref_lem extra k a h v few es =
    let e : (h.refcount + 1) % 2 ^ 32 ≡ h.refcount + 1 =
      omega (arith, refcount_bound extra k a h v few es) in
    rw (es, e)

module _ (extra : ℕ → ℕ) (k : Kernel) (v : Inv extra k) (few : Few extra) (cur : ℕ) (p : Proc)
    (ep : proc_at k cur ≡ some p) (newfd : ℤ) (m n a : ℕ) (h : Handle)
    (em : get_elem? p.fds m ≡ some a) (es : slot k a ≡ some h) where
  -- The new descriptor is free.
  dup_onto_free :
      get_elem? p.fds n ≡ some fd_free → dup_onto cur m newfd n a k ≡ ret n (shared k cur p n a h)
  unfolding dup_onto
  dup_onto_free en =
      let k' : Kernel = set_slot k a (some (record h { refcount = h.refcount + 1 })) in
      ground (
        arith,
        get_fd_lem k cur n fd_free p ep en,
        fh_incref_lem extra k a h v few es,
        get_fd_lem k' cur m a p ep em,
        set_fd_lem k' cur n a p ep,
        slot-ne-free extra k a h v es,
      )

  -- The new descriptor is in use, and is closed first; another descriptor keeps the handle alive.
  dup_onto_used :
      (b : ℕ) (g h' : Handle)
      → valid_fd newfd ≡ some n
      → m ≢ n
      → get_elem? p.fds n ≡ some b
      → b ≢ fd_free
      → slot k b ≡ some g
      → slot (dropped k cur p n b g) a ≡ some h'
      → dup_onto cur m newfd n a k
        ≡ ret n (shared (dropped k cur p n b g) cur (record p { fds = set p.fds n fd_free }) n a h')
  unfolding dup_onto
  dup_onto_used b g h' en ne eb nb eg eh =
      let k₁ : Kernel = dropped k cur p n b g in
      let k₂ : Kernel = set_slot k₁ a (some (record h' { refcount = h'.refcount + 1 })) in
      let q : Proc = record p { fds = set p.fds n fd_free } in
      let v₁ : Inv extra k₁ = dropped-Inv extra k cur n b p g v ep eb eg nb in
      let eq : proc_at k₁ cur ≡ some q = proc_at-set_self k cur p q ep in
      ground (
        arith,
        get_fd_lem k cur n b p ep eb,
        sys_close_used k cur p ep newfd n b g en eb nb eg,
        fh_incref_lem extra k₁ a h' v₁ few eh,
        get_fd_lem k₂ cur m a q eq (get_elem?-set_ne p.fds n m fd_free (λ e. ne (sym e)) ∙ em),
        set_fd_lem k₂ cur n a q eq,
        slot-ne-free extra k₁ a h' v₁ eh,
      )

-- What a successful `sys_dup2` leaves: descriptor `n` of the caller names slot `a`, the other
-- descriptors are as they were, and the counts are exact.
pub record Dupped (extra : ℕ → ℕ) (p : Proc) (cur n a : ℕ) (k : Kernel) : Type 0 where
  pub inv : Inv extra k
  pub caller : Proc
  pub at : proc_at k cur ≡ some caller
  pub new : get_elem? caller.fds n ≡ some a
  pub others : (j : ℕ) → n ≢ j → get_elem? caller.fds j ≡ get_elem? p.fds j

shared-Dupped :
    (extra : ℕ → ℕ) (k : Kernel) (cur n a : ℕ) (p q : Proc) (h : Handle)
    → Inv extra k
    → proc_at k cur ≡ some q
    → n < open_max
    → get_elem? q.fds n ≡ some fd_free
    → slot k a ≡ some h
    → ((j : ℕ) → n ≢ j → get_elem? q.fds j ≡ get_elem? p.fds j)
    → Dupped extra p cur n a (shared k cur q n a h)
shared-Dupped extra k cur n a p q h v eq ln en es same = record {
  inv = shared-Inv extra k cur n a q h v eq en es;
  caller = record q { fds = set q.fds n a };
  at = proc_at-set_self k cur q _ eq;
  new = get_elem?-set_self q.fds n a (lt-length_of_get q.fds n en);
  others = λ j ne. get_elem?-set_ne q.fds n j a ne ∙ same j ne;
}

pub ft_get_lem :
    (extra : ℕ → ℕ) (k : Kernel) (cur : ℕ) (p : Proc) (fd : ℤ) (n a : ℕ)
    → Inv extra k
    → proc_at k cur ≡ some p
    → valid_fd fd ≡ some n
    → get_elem? p.fds n ≡ some a
    → a ≢ fd_free
    → ft_get fd cur k ≡ ret (some a) k
unfolding ft_get
ft_get_lem extra k cur p fd n a v ep en ea na =
    ground (arith, get_fd_lem k cur n a p ep ea, slot_of_fd extra k v.balanced cur p n a ep ea na)

-- From the first handle on, `sys_dup2` is a comparison and `dup_onto`.
sys_dup2_step :
    (extra : ℕ → ℕ) (k : Kernel) (cur : ℕ) (p : Proc) (oldfd newfd : ℤ) (m n a : ℕ)
    → Inv extra k
    → proc_at k cur ≡ some p
    → valid_fd oldfd ≡ some m
    → get_elem? p.fds m ≡ some a
    → a ≢ fd_free
    → valid_fd newfd ≡ some n
    → sys_dup2 cur oldfd newfd k ≡ (if m == n then ret n k else dup_onto cur m newfd n a k)
unfolding sys_dup2
sys_dup2_step extra k cur p oldfd newfd m n a v ep em ea na en =
    let e : pos_part oldfd ≡ m = (valid_fd-lt oldfd m em).1 in
    rw (← e) (
      ground (
        arith,
        ft_get_lem extra k cur p oldfd m a v ep em ea na,
        get_fd_lem k cur m a p ep ea,
        valid_fd-lt oldfd m em,
      ))

module _ (extra : ℕ → ℕ) (k : Kernel) (v : Inv extra k) (few : Few extra) (cur : ℕ) (p : Proc)
    (ep : proc_at k cur ≡ some p) (newfd : ℤ) (m n a : ℕ) (em : get_elem? p.fds m ≡ some a)
    (na : a ≢ fd_free) (en : valid_fd newfd ≡ some n) (ne : m ≢ n) where
  dup_onto-Dupped_free :
      get_elem? p.fds n ≡ some fd_free
      → (k' : Kernel) × (dup_onto cur m newfd n a k ≡ ret n k') × Dupped extra p cur n a k'
  dup_onto-Dupped_free eb =
      let (h, es) = slot_of_fd extra k v.balanced cur p m a ep em na in
      (
        shared k cur p n a h,
        dup_onto_free extra k v few cur p ep newfd m n a h em es eb,
        shared-Dupped extra k cur n a p p h v ep (valid_fd-lt newfd n en).0 eb es (λ j d. refl),
      )

  dup_onto-Dupped_used :
      (b : ℕ)
      → b ≢ fd_free
      → get_elem? p.fds n ≡ some b
      → (k' : Kernel) × (dup_onto cur m newfd n a k ≡ ret n k') × Dupped extra p cur n a k'
  dup_onto-Dupped_used b nb eb =
      let (h, es) = slot_of_fd extra k v.balanced cur p m a ep em na in
      let (g, eg) = slot_of_fd extra k v.balanced cur p n b ep eb nb in
      let k₁ : Kernel = dropped k cur p n b g in
      let q : Proc = record p { fds = set p.fds n fd_free } in
      let v₁ : Inv extra k₁ = dropped-Inv extra k cur n b p g v ep eb eg nb in
      let eq : proc_at k₁ cur ≡ some q = proc_at-set_self k cur p q ep in
      let eqm : get_elem? q.fds m ≡ some a =
        get_elem?-set_ne p.fds n m fd_free (λ e. ne (sym e)) ∙ em in
      let (h', eh) = slot_of_fd extra k₁ v₁.balanced cur q m a eq eqm na in
      (
        shared k₁ cur q n a h',
        dup_onto_used extra k v few cur p ep newfd m n a h em es b g h' en ne eb nb eg eh,
        shared-Dupped extra k₁ cur n a p q h' v₁ eq (valid_fd-lt newfd n en).0
            (get_elem?-set_self p.fds n fd_free (lt-length_of_get p.fds n eb)) eh
            (λ j d. get_elem?-set_ne p.fds n j fd_free d),
      )

  dup_onto-Dupped :
      (k' : Kernel) × (dup_onto cur m newfd n a k ≡ ret n k') × Dupped extra p cur n a k'
  dup_onto-Dupped =
      let (b, eb) = fd-get extra k cur p n v ep (valid_fd-lt newfd n en).0 in
      elim (ℕ_discrete b fd_free) [
        | yes f ↦ dup_onto-Dupped_free (subst (λ x. get_elem? p.fds n ≡ some x) f eb)
        | no f ↦ dup_onto-Dupped_used b f eb
      ]

-- `sys_dup2` between two descriptors in range, the first in use, succeeds with the second as its
-- value: afterwards the second names the same handle, every other descriptor of the caller is as
-- it was, and every handle counts exactly the descriptors that name it (and its extra references).
pub sys_dup2-Dupped :
    (extra : ℕ → ℕ) (k : Kernel) (cur : ℕ) (p : Proc) (oldfd newfd : ℤ) (m n a : ℕ)
    → Inv extra k
    → Few extra
    → proc_at k cur ≡ some p
    → valid_fd oldfd ≡ some m
    → get_elem? p.fds m ≡ some a
    → a ≢ fd_free
    → valid_fd newfd ≡ some n
    → (k' : Kernel) × (sys_dup2 cur oldfd newfd k ≡ ret n k') × Dupped extra p cur n a k'
sys_dup2-Dupped extra k cur p oldfd newfd m n a v few ep em ea na en =
    let step = sys_dup2_step extra k cur p oldfd newfd m n a v ep em ea na en in
    elim (ℕ_discrete m n) [
      | yes e ↦ (
        k,
        ground (arith, step),
        record {
          inv = v;
          caller = p;
          at = ep;
          new = subst (λ j. get_elem? p.fds j ≡ some a) e ea;
          others = λ j d. refl;
        },
      )
      | no d ↦
          let (k', run, done) = dup_onto-Dupped extra k v few cur p ep newfd m n a ea na en d in
          (k', ground (arith, step, run), done)
    ]
