-- ===== src/Tests/ThreadTests.antt =====
-- A list of threads that starts empty.
use longcat_os.Base.{none, some, [], ◌∷◌, ◌≡◌, refl, arith, ◌-◌, ap}
use longcat_os.Base.Outcome.{ret}
use longcat_os.Threadlist.{
  Nodes, threadlist_init, threadlist_cleanup, threadlist_addtail, threadlist_remove,
}
use longcat_os.Synch.{Wchan, wchan_wakeone}
use longcat_os.Synch.OnLists.{Wakes, wchan_wakeone-remhead}
use longcat_os.Threadlist.Init.{initial, threadlist_init-IsList}
use longcat_os.Threadlist.Splice.{IsList, spliced, spliced-IsList}
use longcat_os.Threadlist.Ends.{threadlist_addtail-IsList, threadlist_remove-IsList}

abbrev blank : Nodes
blank = record { prev = λ a. none; next = λ a. none; self = λ a. some (a - 2); count = 7 }

threadlist_init-IsList_example :
    (threadlist_init blank ≡ ret tt (initial blank))
    × IsList (initial blank) []
    × (threadlist_cleanup (initial blank) ≡ ret tt (initial blank))
threadlist_init-IsList_example =
    threadlist_init-IsList blank (λ t. refl) (λ t. refl) (λ t. ap some (omega arith))

abbrev empty : Nodes
empty = initial blank

empty-IsList : IsList empty []
empty-IsList = threadlist_init-IsList_example.1

-- Thread 4 alone, and threads 4 and 9
abbrev one : Nodes
one = record (spliced empty 0 6 1) { count = 1 }

one-IsList : IsList one (4 ∷ [])
one-IsList = spliced-IsList empty [] [] 4 empty-IsList tt

abbrev two : Nodes
two = record (spliced one 6 11 1) { count = 2 }

two-IsList : IsList two (4 ∷ 9 ∷ [])
two-IsList = spliced-IsList one (4 ∷ []) [] 9 one-IsList (omega arith, tt)

threadlist_addtail-IsList_example :
    (h' : Nodes) × (threadlist_addtail 9 one ≡ ret tt h') × IsList h' (4 ∷ 9 ∷ [])
threadlist_addtail-IsList_example =
    threadlist_addtail-IsList one (4 ∷ []) 9 one-IsList (omega arith, tt) (omega arith)

threadlist_remove-IsList_example :
    (h' : Nodes) × (threadlist_remove 4 two ≡ ret tt h') × IsList h' (9 ∷ [])
threadlist_remove-IsList_example = threadlist_remove-IsList two [] (9 ∷ []) 4 two-IsList

abbrev two_asleep : Wchan
two_asleep = record { threads = 4 ∷ 9 ∷ []; woken = 7 ∷ [] }

wchan_wakeone-remhead_example : Wakes two two_asleep (wchan_wakeone two_asleep)
wchan_wakeone-remhead_example = wchan_wakeone-remhead two two_asleep two-IsList
