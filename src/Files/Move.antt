-- ===== src/Files/Move.antt =====
-- One rule for the system calls that change one descriptor and one slot of the file table.
use longcat_os.Base.{
  ℕ, Option, some, ◌+◌, ◌≡◌, ◌≢◌, arith, length, get_elem?, set, length-set, ◌∙◌, sym, subst,
  ℕ_discrete, ◌<◌, List,
}
use longcat_os.Base.Count.{hit}
use longcat_os.Kernel.{Kernel, Handle, Proc, fd_free, slot, proc_at, set_slot, set_proc}
use longcat_os.Files.Refs.{
  refs, Inv, Entry, IsSized, refs-set_fd, slot-set_self, slot-set_ne, Sized-set, Sized-get,
}

-- A slot that is held as often as before.
pub Entry-eq : (m n : ℕ) (o : Option Handle) → m ≡ n → Entry n o → Entry m o
Entry-eq m n o e h = subst (λ x. Entry x o) (sym e) h

-- The tables with `o` in slot `a` and `y` in descriptor `n` of process `i`.
abbrev pub moved : Kernel → ℕ → Proc → ℕ → ℕ → ℕ → Option Handle → Kernel
moved k i p n y a o = set_proc (set_slot k a o) i (some (record p { fds = set p.fds n y }))

-- `vfs_close` does not touch the tables.
pub closed-Inv : (e : ℕ → ℕ) (k : Kernel) (l : List ℕ) → Inv e k → Inv e (record k { closed = l })
closed-Inv e k l v = record {
  sized = record {
    fhs_size = v.sized.fhs_size;
    procs_size = v.sized.procs_size;
    fds_size = v.sized.fds_size;
  };
  balanced = v.balanced;
}

module _ (extra extra' : ℕ → ℕ) (k : Kernel) (v : Inv extra k) (i : ℕ) (p : Proc) (n x y : ℕ)
    (ep : proc_at k i ≡ some p) (ef : get_elem? p.fds n ≡ some x) where
  written-IsSized : IsSized (set_proc k i (some (record p { fds = set p.fds n y })))
  written-IsSized = record {
    fhs_size = v.sized.fhs_size;
    procs_size = length-set k.procs i _ ∙ v.sized.procs_size;
    fds_size =
        Sized-set i k.procs _ (length-set p.fds n y ∙ Sized-get i k.procs p ep v.sized.fds_size)
          v.sized.fds_size;
  }

  -- A slot whose handle stays.
  written_other :
      (j : ℕ)
      → hit j x + extra j ≡ hit j y + extra' j
      → Entry (refs j k.procs + extra j) (slot k j)
      → Entry
          (refs j (set k.procs i (some (record p { fds = set p.fds n y }))) + extra' j)
          (slot k j)
  written_other j e =
      Entry-eq _ (refs j k.procs + extra j) (slot k j)
        (omega (arith, refs-set_fd j i k.procs p n x y ep ef))

  -- Only the descriptor is written.
  pub written-Inv :
      ((j : ℕ) → j ≢ fd_free → hit j x + extra j ≡ hit j y + extra' j)
      → Inv extra' (set_proc k i (some (record p { fds = set p.fds n y })))
  written-Inv far = record {
    sized = written-IsSized;
    balanced = λ j nj. written_other j (far j nj) (v.balanced j nj);
  }

  module _ (a : ℕ) (o : Option Handle) (la : a < length k.fhs)
      (near : (m m' : ℕ)
        → m' + hit a x ≡ m + hit a y
        → Entry (m + extra a) (slot k a)
        → Entry (m' + extra' a) o)
      (far : (j : ℕ) → j ≢ fd_free → a ≢ j → hit j x + extra j ≡ hit j y + extra' j) where
    moved-IsSized : IsSized (moved k i p n y a o)
    moved-IsSized = record {
      fhs_size = length-set k.fhs a o ∙ v.sized.fhs_size;
      procs_size = written-IsSized.procs_size;
      fds_size = written-IsSized.fds_size;
    }

    moved_self :
        a ≢ fd_free
        → Entry (refs a (moved k i p n y a o).procs + extra' a) (slot (moved k i p n y a o) a)
    moved_self na =
        subst (Entry (refs a (moved k i p n y a o).procs + extra' a)) (sym (slot-set_self k a o la))
          (near (refs a k.procs) _ (refs-set_fd a i k.procs p n x y ep ef) (v.balanced a na))

    moved_other :
        (j : ℕ)
        → j ≢ fd_free
        → a ≢ j
        → Entry (refs j (moved k i p n y a o).procs + extra' j) (slot (moved k i p n y a o) j)
    moved_other j nj d =
        subst (Entry (refs j (moved k i p n y a o).procs + extra' j)) (sym (slot-set_ne k a j o d))
          (written_other j (far j nj d) (v.balanced j nj))

    -- The descriptor and the slot are written.
    pub moved-Inv : a ≢ fd_free → Inv extra' (moved k i p n y a o)
    moved-Inv na = record {
      sized = moved-IsSized;
      balanced = λ j nj. elim (ℕ_discrete a j) [
        | yes e ↦
            subst
              (λ x.
                Entry (refs x (moved k i p n y a o).procs + extra' x)
                  (slot (moved k i p n y a o) x))
              e (moved_self na)
        | no d ↦ moved_other j nj d
      ];
    }
