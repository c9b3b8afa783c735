-- ===== src/Vm/Search.antt =====
-- The three searches of page_get: for a free frame, for a clean one and for a frame to evict.
use longcat_os.Base.{
  ℕ, zero, suc, none, some, Bool, true, false, ◌+◌, ◌<◌, ◌≤◌, ◌≡◌, ◌≢◌, ◌⊎◌, arith, refl, sym, ap,
  ◌∙◌, Bool-cases, not, inl, inr, if◌then◌else◌, ℕ_discrete, dec_lt, leb, ◌||◌,
}
use longcat_os.Base.Outcome.{ret}
use longcat_os.Vm.{Vm, CmEntry, with_entry}
use longcat_os.Vm.Paging.{find_free, find_clean, choose_victim, is_free}

-- Frame `i` is free, and is busy now.
pub record FoundFree (s : Vm) (k n i : ℕ) : Type 0 where
  pub free : is_free (s.entries i) ≡ true
  pub from : k ≤ i
  pub below : i < k + n

abbrev pub taken : Vm → ℕ → Vm
taken s i = with_entry s i (record (s.entries i) { busy = true })

abbrev pub NoFree : Vm → ℕ → ℕ → Type 0
NoFree s k n = (j : ℕ) → k ≤ j → j < k + n → is_free (s.entries j) ≡ false

find_free_here :
    (s : Vm) (n k : ℕ)
    → is_free (s.entries k) ≡ true
    → find_free (suc n) k s ≡ ret (some k) (taken s k)
unfolding find_free
find_free_here s n k e = ground (arith, e)

find_free_later :
    (s : Vm) (n k : ℕ)
    → is_free (s.entries k) ≡ false
    → find_free (suc n) k s ≡ find_free n (k + 1) s
unfolding find_free
find_free_later s n k e = ground (arith, e)

-- The search for a free frame takes a free one if there is one, and leaves everything as it was
-- otherwise.
pub find_free_lem :
    (s : Vm) (n k : ℕ)
    → ((i : ℕ) × FoundFree s k n i × (find_free n k s ≡ ret (some i) (taken s i)))
      ⊎ (NoFree s k n × (find_free n k s ≡ ret none s))
unfolding find_free
find_free_lem s zero k = inr (λ j l m. absurd (omega arith), refl)
find_free_lem s (suc n) k = elim (Bool-cases (is_free (s.entries k))) [
  | inl e ↦
      inl (k, record { free = e; from = omega arith; below = omega arith }, find_free_here s n k e)
  | inr e ↦ elim (find_free_lem s n (k + 1)) [
    | inl (i, f, q) ↦ inl (
      i,
      record { free = f.free; from = omega (arith, f.from); below = omega (arith, f.below) },
      find_free_later s n k e ∙ q,
    )
    | inr (f, q) ↦ inr (
      λ j l m. elim (ℕ_discrete k j) [
        | yes r ↦ ap (λ x. is_free (s.entries x)) (sym r) ∙ e
        | no r ↦ f j (omega arith) (omega arith)
      ],
      find_free_later s n k e ∙ q,
    )
  ]
]

-- The head of the clock
abbrev pub at_head : Vm → ℕ → Vm
at_head s h = record s { clock_head = h }

abbrev next_head : Vm → ℕ
next_head s = if leb s.num_pages (s.clock_head + 1) then 0 else s.clock_head + 1

next_head_lem :
    (s : Vm)
    → s.clock_head < s.num_pages
    → ((s.clock_head + 1 < s.num_pages) × (next_head s ≡ s.clock_head + 1))
      ⊎ ((s.clock_head + 1 ≡ s.num_pages) × (next_head s ≡ 0))
next_head_lem s l = elim (dec_lt (s.clock_head + 1) s.num_pages) [
  | yes m ↦ inl (m, ground arith)
  | no m ↦ inr (omega arith, ground arith)
]

next_head_lt : (s : Vm) → s.clock_head < s.num_pages → next_head s < s.num_pages
next_head_lt s l = elim (next_head_lem s l) [ inl (m, e) ↦ omega arith | inr (m, e) ↦ omega arith ]

find_clean_step :
    (s : Vm) (n : ℕ)
    → is_free (s.entries s.clock_head) ≡ false
    → find_clean (suc n) s ≡ find_clean n (at_head s (next_head s))
unfolding find_clean
find_clean_step s n e = ground (arith, e)

-- Where no frame is free, the search for a clean frame finds none.
pub find_clean_lem :
    (s : Vm) (n : ℕ)
    → s.clock_head < s.num_pages
    → NoFree s 0 s.num_pages
    → (h : ℕ) × (h < s.num_pages) × (find_clean n s ≡ ret none (at_head s h))
unfolding find_clean
find_clean_lem s zero l f = (s.clock_head, l, refl)
find_clean_lem s (suc n) l f =
    let (h, m, e) = find_clean_lem (at_head s (next_head s)) n (next_head_lt s l) f in
    (h, m, find_clean_step s n (f s.clock_head (omega arith) (omega arith)) ∙ e)

-- A frame that may be evicted
abbrev pub evictable : CmEntry → Bool
evictable c = not (c.kpage || c.busy)

choose_victim_here :
    (s : Vm) (n : ℕ)
    → evictable (s.entries s.clock_head) ≡ true
    → choose_victim (suc n) s ≡ ret s.clock_head (at_head s (next_head s))
unfolding choose_victim
choose_victim_here s n e = ground (arith, e)

choose_victim_later :
    (s : Vm) (n : ℕ)
    → evictable (s.entries s.clock_head) ≡ false
    → choose_victim (suc n) s ≡ choose_victim n (at_head s (next_head s))
unfolding choose_victim
choose_victim_later s n e = ground (arith, e)

-- Frame `j` is less than `n` steps of the clock away.
abbrev Ahead : Vm → ℕ → ℕ → Type 0
Ahead s j n =
    ((s.clock_head ≤ j) × (j < s.clock_head + n))
    ⊎ ((j < s.clock_head) × (j + s.num_pages < s.clock_head + n))

Ahead-next :
    (s : Vm) (j n : ℕ)
    → s.clock_head < s.num_pages
    → j < s.num_pages
    → j ≢ s.clock_head
    → Ahead s j (suc n)
    → Ahead (at_head s (next_head s)) j n
Ahead-next s j n l m d a = elim (next_head_lem s l) [
  | inl (b, e) ↦ elim a [
    | inl (p, q) ↦ inl (omega arith, omega arith)
    | inr (p, q) ↦ inr (omega arith, omega arith)
  ]
  | inr (b, e) ↦ elim a [
    | inl (p, q) ↦ absurd (d (omega arith))
    | inr (p, q) ↦ inl (omega arith, omega arith)
  ]
]

-- The frame that the clock gives
pub record Victim (s : Vm) (i h : ℕ) : Type 0 where
  pub evicts : evictable (s.entries i) ≡ true
  pub below : i < s.num_pages
  pub head : h < s.num_pages

choose_within :
    (s : Vm) (n j : ℕ)
    → s.clock_head < s.num_pages
    → j < s.num_pages
    → evictable (s.entries j) ≡ true
    → Ahead s j n
    → (i : ℕ) × (h : ℕ) × (choose_victim n s ≡ ret i (at_head s h)) × Victim s i h
choose_within s zero j l m e a =
    absurd (elim a [ inl (p, q) ↦ omega arith | inr (p, q) ↦ omega arith ])
choose_within s (suc n) j l m e a = elim (Bool-cases (evictable (s.entries s.clock_head))) [
  | inl v ↦ (
    s.clock_head,
    next_head s,
    choose_victim_here s n v,
    record { evicts = v; below = l; head = next_head_lt s l },
  )
  | inr v ↦
      (let d : j ≢ s.clock_head =
          (λ q. absurd (ground (arith, e, v, ap (λ k. evictable (s.entries k)) q))) in
        let (i, h, q, w) =
          choose_within (at_head s (next_head s)) n j (next_head_lt s l) m e
            (Ahead-next s j n l m d a) in
        (
          i,
          h,
          choose_victim_later s n v ∙ q,
          record { evicts = w.evicts; below = w.below; head = w.head },
        ))
]

-- Where some frame may be evicted, the clock finds one after at most one turn.
pub choose_victim-Victim :
    (s : Vm) (j : ℕ)
    → s.clock_head < s.num_pages
    → j < s.num_pages
    → evictable (s.entries j) ≡ true
    → (i : ℕ) × (h : ℕ) × (choose_victim s.num_pages s ≡ ret i (at_head s h)) × Victim s i h
choose_victim-Victim s j l m e = choose_within s s.num_pages j l m e (elim (dec_lt j s.clock_head) [
  | yes p ↦ inr (p, omega arith)
  | no p ↦ inl (omega arith, omega arith)
])
