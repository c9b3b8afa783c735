-- ===== src/Vm/Filled.antt =====
-- The coremap that vm_bootstrap fills.
use longcat_os.Base.{
  ℕ, zero, suc, Bool, true, false, ◌+◌, ◌-◌, ◌<◌, ◌≤◌, ◌≡◌, arith, refl, sym, subst, ◌∙◌,
  ℕ_discrete, dec_lt,
}
use longcat_os.Base.Store.{store, store_self, store_ne}
use longcat_os.Vm.{CmEntry}
use longcat_os.Vm.Boot.{stolen, unused, mark_entries, ram_pages}

mark_entries_below :
    (rounds i : ℕ) (f : ℕ → CmEntry) (e : ℕ → CmEntry) (j : ℕ)
    → j < i
    → mark_entries rounds i f e j ≡ e j
unfolding mark_entries
mark_entries_below zero i f e j l = refl
mark_entries_below (suc rounds) i f e j l =
    mark_entries_below rounds (i + 1) f (store e i (f i)) j (omega arith)
    ∙ store_ne e i j (f i) (omega arith)

mark_entries_in :
    (rounds i : ℕ) (f : ℕ → CmEntry) (e : ℕ → CmEntry) (j : ℕ)
    → i ≤ j
    → j < i + rounds
    → mark_entries rounds i f e j ≡ f j
unfolding mark_entries
mark_entries_in zero i f e j l m = absurd (omega arith)
mark_entries_in (suc rounds) i f e j l m = elim (ℕ_discrete i j) [
  | no n ↦ mark_entries_in rounds (i + 1) f (store e i (f i)) j (omega arith) (omega arith)
  | yes q ↦
      mark_entries_below rounds (i + 1) f (store e i (f i)) j (omega arith)
      ∙ subst (λ k. store e i (f i) k ≡ f k) q (store_self e i (f i))
]

-- What the loops leave
abbrev pub filled : ℕ → ℕ → (ℕ → CmEntry) → ℕ → CmEntry
filled f l e =
    mark_entries (ram_pages - l) l (λ i. unused false)
      (mark_entries (l - f) f (λ i. unused true) (mark_entries f 0 stolen e))

module _ (f l : ℕ) (e : ℕ → CmEntry) (fl : f ≤ l) (lr : l ≤ ram_pages) where
  pub filled_kernel : (j : ℕ) → j < f → filled f l e j ≡ stolen j
  filled_kernel j h =
      mark_entries_below (ram_pages - l) l (λ i. unused false) _ j (omega arith)
      ∙ mark_entries_below (l - f) f (λ i. unused true) (mark_entries f 0 stolen e) j h
      ∙ mark_entries_in f 0 stolen e j (omega arith) (omega arith)

  pub filled_user : (j : ℕ) → f ≤ j → j < l → filled f l e j ≡ unused true
  filled_user j h k =
      mark_entries_below (ram_pages - l) l (λ i. unused false) _ j k
      ∙ mark_entries_in (l - f) f (λ i. unused true) (mark_entries f 0 stolen e) j h (omega arith)

  filled_none : (j : ℕ) → l ≤ j → j < ram_pages → filled f l e j ≡ unused false
  filled_none j h k = mark_entries_in (ram_pages - l) l (λ i. unused false) _ j h (omega arith)

  mark_entries_above :
      (rounds i : ℕ) (g : ℕ → CmEntry) (d : ℕ → CmEntry) (j : ℕ)
      → i + rounds ≤ j
      → mark_entries rounds i g d j ≡ d j
  unfolding mark_entries
  mark_entries_above zero i g d j h = refl
  mark_entries_above (suc rounds) i g d j h =
      mark_entries_above rounds (i + 1) g (store d i (g i)) j (omega arith)
      ∙ store_ne d i j (g i) (omega arith)

  filled_behind : (j : ℕ) → ram_pages ≤ j → filled f l e j ≡ e j
  filled_behind j h =
      mark_entries_above (ram_pages - l) l (λ i. unused false) _ j (omega arith)
      ∙ mark_entries_above (l - f) f (λ i. unused true) (mark_entries f 0 stolen e) j (omega arith)
      ∙ mark_entries_above f 0 stolen e j (omega arith)

  -- Whatever is true of each kind of entry is true of all.
  pub filled_all :
      (P : CmEntry → Type 0)
      → ((j : ℕ) → P (stolen j))
      → ((b : Bool) → P (unused b))
      → ((j : ℕ) → ram_pages ≤ j → P (e j))
      → (j : ℕ) → P (filled f l e j)
  filled_all P a b c j = elim (dec_lt j f) [
    | yes h ↦ subst P (sym (filled_kernel j h)) (a j)
    | no h ↦ elim (dec_lt j l) [
      | yes k ↦ subst P (sym (filled_user j (omega arith) k)) (b true)
      | no k ↦ elim (dec_lt j ram_pages) [
        | yes m ↦ subst P (sym (filled_none j (omega arith) m)) (b false)
        | no m ↦ subst P (sym (filled_behind j (omega arith))) (c j (omega arith))
      ]
    ]
  ]
