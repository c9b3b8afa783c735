-- ===== src/Synch/OnLists.antt =====
-- The wait channels over the linked thread lists of kern/thread/threadlist.c.
use longcat_os.Base.{
  ℕ, Option, none, some, List, [], ◌∷◌, ◌++◌, ◌≡◌, ◌+◌, ◌<◌, ◌^◌, refl, subst, sym, length,
}
use longcat_os.Base.Outcome.{ret}
use longcat_os.Synch.{Wchan, wchan_sleep, wchan_wakeone}
use longcat_os.Threadlist.{Nodes, listnode, threadlist_addtail, threadlist_remhead}
use longcat_os.Threadlist.Links.{Out}
use longcat_os.Threadlist.Splice.{IsList}
use longcat_os.Threadlist.Ends.{
  threadlist_addtail-IsList, threadlist_remhead-IsList, threadlist_remhead_empty,
}
use mathlib.Core.List.{append-nil}

abbrev pub woken_by : Option ℕ → List ℕ
woken_by none = []
woken_by (some t) = t ∷ []

-- Going to sleep puts the thread on the linked list of the channel.
pub wchan_sleep-addtail :
    (h : Nodes) (wc : Wchan) (t : ℕ)
    → IsList h wc.threads
    → Out (listnode t) wc.threads
    → length wc.threads + 1 < 2 ^ 32
    → (h' : Nodes) × (threadlist_addtail t h ≡ ret tt h') × IsList h' (wchan_sleep t wc).threads
unfolding wchan_sleep
wchan_sleep-addtail h wc t v o l = threadlist_addtail-IsList h wc.threads t v o l

-- The list without its first thread holds the sleepers of `wc'`, and that thread is woken.
abbrev pub Wakes : Nodes → Wchan → Wchan → Type 0
Wakes h wc wc' =
    (r : Option ℕ) × (h' : Nodes) × (threadlist_remhead h ≡ ret r h')
    × IsList h' wc'.threads
    × (wc'.woken ≡ wc.woken ++ woken_by r)

wakes :
    (h : Nodes) (wc : Wchan) (ts : List ℕ)
    → wc.threads ≡ ts
    → IsList h ts
    → Wakes h wc (elim ts [
      | [] ↦ wc
      | target ∷ us ↦ record { threads = us; woken = wc.woken ++ (target ∷ []) }
    ])
wakes h wc [] e v =
    (none, h, threadlist_remhead_empty h v, subst (IsList h) (sym e) v, sym (append-nil wc.woken))
wakes h wc (t ∷ ts) q v =
    let (h', e, w) = threadlist_remhead-IsList h ts t v in (some t, h', e, w, refl)

-- Where the memory holds the sleepers of a channel as a list, threadlist_remhead takes off the thread
-- that wchan_wakeone wakes, if there is one, and the memory holds the sleepers that are left.
pub wchan_wakeone-remhead :
    (h : Nodes) (wc : Wchan) → IsList h wc.threads → Wakes h wc (wchan_wakeone wc)
unfolding wchan_wakeone
wchan_wakeone-remhead h wc v = wakes h wc wc.threads refl v
