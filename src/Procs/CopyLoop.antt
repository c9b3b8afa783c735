-- ===== src/Procs/CopyLoop.antt =====
-- The loop of `fork_common` over the descriptors.
use longcat_os.Base.{
  ℕ, zero, suc, some, List, ◌+◌, ◌≤◌, ◌<◌, ◌≡◌, ◌≢◌, refl, arith, get_elem?, set, lt-length_of_get,
  subst, sym, ◌∙◌, get_elem?-set_self, get_elem?-set_ne, drop, ℕ_discrete,
}
use longcat_os.Base.Count.{hit, count, count-drop, count-drop_end}
use longcat_os.Base.Outcome.{ret, ◌>>=◌}
use longcat_os.Kernel.{Kernel, Proc, open_max, fd_free, slot, proc_at}
use longcat_os.Files.Move.{Entry-eq}
use longcat_os.Files.Dup.{Few}
use longcat_os.Files.Refs.{refs, Inv, Sized-get, fd-get}
use longcat_os.Procs.Calls.{copy_fds}
use longcat_os.Procs.Fork.{copy_fd_lem}

-- The extra references may be given in another form.
pub Inv-ext :
    (e e' : ℕ → ℕ) (k : Kernel) → ((j : ℕ) → j ≢ fd_free → e' j ≡ e j) → Inv e k → Inv e' k
Inv-ext e e' k h v = record {
  sized = v.sized;
  balanced = λ j nj.
      Entry-eq _ (refs j k.procs + e j) (slot k j) (omega (arith, h j nj)) (v.balanced j nj);
}

-- What the loop leaves when it starts at descriptor `i`: the new process, still with slot `s`, has
-- descriptors that agree with the caller's from `i` on and are as before below, and each slot that a
-- descriptor of the new process named from `i` on has one reference more than descriptors hold.
pub record CopiedFrom (extra : ℕ → ℕ) (cur s : ℕ) (p q : Proc) (i : ℕ) (k : Kernel) : Type 0 where
  pub inv : Inv (λ j. extra j + count j (drop i q.fds)) k
  pub caller : proc_at k cur ≡ some p
  pub fds : List ℕ
  pub child : proc_at k s ≡ some (record q { fds = fds })
  pub below : (j : ℕ) → j < i → get_elem? fds j ≡ get_elem? q.fds j
  pub above : (j : ℕ) → i ≤ j → j < open_max → get_elem? fds j ≡ get_elem? p.fds j

module _ (cur s : ℕ) (p : Proc) (ne : s ≢ cur) where
  pub copy_fds_lem :
      (rounds i : ℕ) (extra : ℕ → ℕ) (k : Kernel) (q : Proc)
      → i + rounds ≡ open_max
      → Inv extra k
      → Few (λ j. extra j + count j (drop i q.fds))
      → proc_at k cur ≡ some p
      → proc_at k s ≡ some q
      → (k' : Kernel) × (copy_fds cur s rounds i k ≡ ret tt k') × CopiedFrom extra cur s p q i k'
  unfolding copy_fds
  copy_fds_lem zero i extra k q h v few ec eq = (
    k,
    refl,
    record {
      inv =
          Inv-ext extra _ k
            (λ j nj. omega (
              arith,
              count-drop_end j q.fds i (omega (arith, Sized-get s k.procs q eq v.sized.fds_size)),
            ))
            v;
      caller = ec;
      fds = q.fds;
      child = eq;
      below = λ j l. refl;
      above = λ j a b. absurd (omega arith);
    },
  )
  copy_fds_lem (suc rounds) i extra k q h v few ec eq =
      let (x, ex) = fd-get extra k cur p i v ec (omega arith) in
      let (y, ey) = fd-get extra k s q i v eq (omega arith) in
      let (k₁, run₁, c) =
        copy_fd_lem extra k v (λ j nj. omega (arith, few j nj)) cur s i x y p q ec eq ne ex ey
          (omega arith) in
      let q₁ : Proc = record q { fds = set q.fds i x } in
      let e₁ : ℕ → ℕ = λ j. extra j + hit j y in
      let (k₂, run₂, d) =
        copy_fds_lem rounds (i + 1) e₁ k₁ q₁ (omega arith) c.inv
          (λ j nj. omega (arith, few j nj, count-drop j q.fds i x y ey)) c.caller c.child in
      (
        k₂,
        rw (run₁, ◌>>=◌) run₂,
        record {
          inv = Inv-ext _ _ k₂ (λ j nj. omega (arith, count-drop j q.fds i x y ey)) d.inv;
          caller = d.caller;
          fds = d.fds;
          child = d.child;
          below = λ j l. d.below j (omega arith) ∙ get_elem?-set_ne q.fds i j x (omega arith);
          above = λ j a b. elim (ℕ_discrete i j) [
            | yes e ↦
                subst (λ m. get_elem? d.fds m ≡ get_elem? p.fds m) e
                  (d.below i (omega arith)
                    ∙ get_elem?-set_self q.fds i x (lt-length_of_get q.fds i ey)
                    ∙ sym ex)
            | no f ↦ d.above j (omega arith) b
          ];
        },
      )
