-- ===== src/Threadlist/Init.antt =====
-- threadlist_init and threadlist_cleanup.
use longcat_os.Base.{ℕ, none, some, [], ◌≡◌, arith, refl, ◌∙◌}
use longcat_os.Base.Outcome.{ret}
use longcat_os.Threadlist.{Nodes, head, tail, listnode, threadlist_init, threadlist_cleanup}
use longcat_os.Base.Store.{store, store-store_ne}
use longcat_os.Threadlist.Splice.{IsList}

-- The bookends point to each other.
abbrev pub initial : Nodes → Nodes
initial h = record {
  prev = store (store h.prev head none) tail (some head);
  next = store (store h.next head (some tail)) tail none;
  self = store (store h.self head none) tail none;
  count = 0;
}

-- On memory where no thread is on a list, threadlist_init makes an empty list, which
-- threadlist_cleanup accepts.
pub threadlist_init-IsList :
    (h : Nodes)
    → ((t : ℕ) → h.prev (listnode t) ≡ none)
    → ((t : ℕ) → h.next (listnode t) ≡ none)
    → ((t : ℕ) → h.self (listnode t) ≡ some t)
    → (threadlist_init h ≡ ret tt (initial h))
      × IsList (initial h) []
      × (threadlist_cleanup (initial h) ≡ ret tt (initial h))
unfolding threadlist_init threadlist_cleanup
threadlist_init-IsList h p n s = (
  refl,
  record {
    links = (refl, refl);
    head_prev = refl;
    tail_next = refl;
    selfs = λ t.
        store-store_ne h.self head tail (listnode t) none none (omega arith) (omega arith) ∙ s t;
    distinct = tt;
    off = λ t o. (
      store-store_ne h.prev head tail (listnode t) none (some head) (omega arith) (omega arith)
          ∙ p t,
      store-store_ne h.next head tail (listnode t) (some tail) none (omega arith) (omega arith)
          ∙ n t,
    );
    size = refl;
  },
  refl,
)
