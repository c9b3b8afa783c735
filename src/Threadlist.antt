-- ===== src/Threadlist.antt =====
-- kern/thread/threadlist.c: the doubly linked list of threads with a bookend at each end, over the
-- memory that holds the nodes. The address of `tl_head` is 0, that of `tl_tail` is 1, and that of
-- the list node of thread `t` is `t + 2`; a DEBUGASSERT is taken as compiled in.
pub mod Links
pub mod Splice
pub mod Ends
pub mod Init
use longcat_os.Base.{
  ℕ, Option, none, some, Bool, true, false, not, ◌+◌, ◌-◌, ◌%◌, ◌^◌, ◌==◌, ltb, if◌then◌else◌,
}
use longcat_os.Base.Store.{store}
use longcat_os.Base.Outcome.{M, ◌>>=◌, ◌>>◌, return, get, put, kassert, deref}

abbrev pub head : ℕ
head = 0

abbrev pub tail : ℕ
tail = 1

abbrev pub listnode : ℕ → ℕ
listnode t = t + 2

-- The three pointers of the `struct threadlistnode` at each address, and `tl_count`.
pub record Nodes : Type 0 where
  pub prev : ℕ → Option ℕ
  pub next : ℕ → Option ℕ
  pub self : ℕ → Option ℕ
  pub count : ℕ

abbrev pub is_null : Option ℕ → Bool
is_null none = true
is_null (some a) = false

abbrev pub set_prev : ℕ → Option ℕ → M Nodes (Unit {0})
set_prev a x = do h ← get; put (record h { prev = store h.prev a x })

abbrev pub set_next : ℕ → Option ℕ → M Nodes (Unit {0})
set_next a x = do h ← get; put (record h { next = store h.next a x })

abbrev pub set_self : ℕ → Option ℕ → M Nodes (Unit {0})
set_self a x = do h ← get; put (record h { self = store h.self a x })

unfoldable pub threadlistnode_init : ℕ → ℕ → M Nodes (Unit {0})
threadlistnode_init tln t = do set_next tln none; set_prev tln none; set_self tln (some t)

unfoldable pub threadlistnode_cleanup : ℕ → M Nodes (Unit {0})
threadlistnode_cleanup tln = do
  h ← get
  kassert (is_null (h.next tln))
  kassert (is_null (h.prev tln))
  kassert (not (is_null (h.self tln)))

unfoldable pub threadlist_init : M Nodes (Unit {0})
threadlist_init = do
  set_next head (some tail)
  set_prev head none
  set_next tail none
  set_prev tail (some head)
  set_self head none
  set_self tail none
  h ← get
  put (record h { count = 0 })

abbrev pub threadlist_isempty : M Nodes Bool
threadlist_isempty = do h ← get; return (h.count == 0)

abbrev pub points_to : Option ℕ → ℕ → Bool
points_to none a = false
points_to (some b) a = b == a

unfoldable pub threadlist_cleanup : M Nodes (Unit {0})
threadlist_cleanup = do
  h ← get
  kassert (points_to (h.next head) tail)
  kassert (is_null (h.prev head))
  kassert (is_null (h.next tail))
  kassert (points_to (h.prev tail) head)
  kassert (is_null (h.self head))
  kassert (is_null (h.self tail))
  empty ← threadlist_isempty
  kassert empty
  kassert (h.count == 0)

-- The two stores that end an insertion
abbrev pub link_neighbours : ℕ → M Nodes (Unit {0})
link_neighbours addee = do
  h ← get
  p ← deref (h.prev addee)
  set_next p (some addee)
  h ← get
  n ← deref (h.next addee)
  set_prev n (some addee)

unfoldable pub threadlist_insertafternode : ℕ → ℕ → M Nodes (Unit {0})
threadlist_insertafternode onlist t = do
  h ← get
  kassert (is_null (h.prev (listnode t)))
  kassert (is_null (h.next (listnode t)))
  set_prev (listnode t) (some onlist)
  h ← get
  set_next (listnode t) (h.next onlist)
  link_neighbours (listnode t)

unfoldable pub threadlist_insertbeforenode : ℕ → ℕ → M Nodes (Unit {0})
threadlist_insertbeforenode t onlist = do
  h ← get
  kassert (is_null (h.prev (listnode t)))
  kassert (is_null (h.next (listnode t)))
  set_prev (listnode t) (h.prev onlist)
  set_next (listnode t) (some onlist)
  link_neighbours (listnode t)

unfoldable pub threadlist_removenode : ℕ → M Nodes (Unit {0})
threadlist_removenode tln = do
  h ← get
  p ← deref (h.prev tln)
  n ← deref (h.next tln)
  set_next p (some n)
  h ← get
  q ← deref (h.next tln)
  set_prev q (h.prev tln)
  set_prev tln none
  set_next tln none

abbrev pub count_up : M Nodes (Unit {0})
count_up = do h ← get; put (record h { count = (h.count + 1) % 2 ^ 32 })

abbrev pub count_down : M Nodes (Unit {0})
count_down = do h ← get; kassert (ltb 0 h.count); put (record h { count = h.count - 1 })

unfoldable pub threadlist_addhead : ℕ → M Nodes (Unit {0})
threadlist_addhead t = do threadlist_insertafternode head t; count_up

unfoldable pub threadlist_addtail : ℕ → M Nodes (Unit {0})
threadlist_addtail t = do threadlist_insertbeforenode t tail; count_up

unfoldable pub threadlist_remhead : M Nodes (Option ℕ)
threadlist_remhead = do
  h ← get
  tln ← deref (h.next head)
  if is_null (h.next tln)
      then return none
      else (do threadlist_removenode tln; count_down; h ← get; return (h.self tln))

unfoldable pub threadlist_remtail : M Nodes (Option ℕ)
threadlist_remtail = do
  h ← get
  tln ← deref (h.prev tail)
  if is_null (h.prev tln)
      then return none
      else (do threadlist_removenode tln; count_down; h ← get; return (h.self tln))

unfoldable pub threadlist_insertafter : ℕ → ℕ → M Nodes (Unit {0})
threadlist_insertafter onlist addee = do
  threadlist_insertafternode (listnode onlist) addee
  count_up

unfoldable pub threadlist_insertbefore : ℕ → ℕ → M Nodes (Unit {0})
threadlist_insertbefore addee onlist = do
  threadlist_insertbeforenode addee (listnode onlist)
  count_up

unfoldable pub threadlist_remove : ℕ → M Nodes (Unit {0})
threadlist_remove t = do threadlist_removenode (listnode t); count_down
