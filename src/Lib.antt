-- ===== src/Lib.antt =====
-- LongcatOS, an OS/161 kernel: a model of the process table, the file table, the system calls over
-- them, virtual memory, the synchronisation primitives, the thread lists, the bitmaps and the moving of
-- data.
--
-- How the parts interact. A process is a slot of the process table; its descriptors are indices
-- into the global file table, whose handles count the descriptors that name them. fork_common
-- copies descriptors and counts, kern__exit closes them, and a process without a living parent is
-- put into the coffin, which the next exit empties. Locks, semaphores and condition
-- variables put threads on wait channels, and a wait channel keeps them on a thread list. Bitmaps
-- keep track of blocks for the swap area and the file system. A page of an address space is in a
-- frame that the coremap knows, in a block of the swap area, or nowhere yet; a fault brings it into a
-- frame, for which page_get may have to write another page out, and into the translation buffer.
--
-- Which file models what:
--   Base, Base/*: shared notation; arrays as lists; Base/Outcome is the result of kernel code: a
--     value, an error number or a panic, with the state after it. A failed KASSERT, a NULL pointer
--     that is followed and an index out of range are panics.
--   Kernel: kern/include/proc.h, kern/include/filetable.h and the limits of
--     kern/include/kern/limits.h. Pointers into the tables are slots.
--   Files: kern/vfs/filetable.c and kern/syscall/close.c. Files/Refs counts references and states the
--     invariant; Files/Calls models kern/syscall/dup2.c and open.c, Files/Io models lseek.c and
--     readwrite.c; Files/Move, Close, Dup, Open, Io/Offsets and Io/Transfers hold their proofs.
--   Procs: kern/proc/proc.c. Procs/Calls models kern/syscall/fork.c, exit.c and waitpid.c; Procs/Pids,
--     Fork, CopyLoop, Forked, Coffin, Exit and Wait hold their proofs.
--   Boot: ft_init of kern/vfs/filetable.c, proc_bootstrap, pt_init and pt_bootstrap, as
--     kern/main/main.c calls them.
--   Synch: kern/thread/synch.c and the wait channels of kern/thread/thread.c, Synch/Alloc its
--     constructors and destructors. Synch/Channels and Locks say what one call does; Synch/Sems and
--     Monitors run any sequence of calls by any threads; Synch/Order is about condition
--     variables, and OnLists puts the channels on the linked lists of Threadlist.
--   Threadlist: kern/thread/threadlist.c over a memory of linked nodes. Threadlist/Links says when
--     the memory holds a list, Splice edits it at one place, Init and Ends are about the calls.
--   Bitmap: kern/lib/bitmap.c. Bitmap/Bytes is about the bits of a byte, View reads a bitmap as a
--     sequence of bits, and Change, Search and Create are about the calls.
--   Uio: kern/lib/uio.c with kern/include/uio.h; Uio/Moves and Zeros hold its proofs.
--   Vm: kern/include/coremap.h, pagetable.h and addrspace.h. Vm/Swap is kern/vm/swap.c, Paging
--     is kern/vm/paging.c, Tlb and Fault are kern/arch/mips/vm/vm.c with pte_acquire and
--     pte_release of kern/vm/addrspace.c, Boot is kern/arch/mips/vm/ram.c and the coremap of
--     vm_bootstrap, Start is vm_bootstrap and swap_init with what they allocate. Vm/Coherence
--     says how page tables, coremap and swap area fit together and what bytes a page has, and
--     Sound adds the translation buffer. Lookup, Like, Blocks, Unmap, Map and Protect are the
--     changes of the tables that calls are made of; Flush, Shoot, Transfer, Wrote, WriteOut,
--     Search, Evict, Get, Swapin, Load, Slot, Enter, Handle, Whole, Refuse, Filled, Layout and
--     Booted go through the calls. Vm/Kmem is alloc_kpages and free_kpages. Vm/Sbrk is
--     kern/syscall/sbrk.c: Leave, Resident, Shrink and Whole shrink the heap by the change in
--     Drop, and Table, Add and Grow enlarge it.
--   Tests: runs on small states, and the theorems at concrete inputs.
--
-- Steps. A system call over the tables is one step: the table locks are held for its length or are
-- left out, and what other processes do while a call sleeps is an argument. Virtual memory has one
-- processor on which one call runs at a time, so that a wait on a busy frame would never end; such a
-- wait is a panic. The bytes of a page are one number, and 0 is a page of zeros. In Synch each critical
-- section of a spinlock is one step, and a call is cut where it sleeps; the scheduler may run the
-- woken threads in any order. What vfs_open, the copy routines, kmalloc and the operations of a
-- vnode answer are arguments of the calls that use them; what the heap asks of alloc_kpages while the
-- machine boots is a list of page counts.
--
-- Numbers. Reference counts, the counts of semaphores and the counts of thread lists have 32 bits
-- and wrap; the priority in a lock has 8. A file offset is a signed number of 64 bits. A byte of a
-- bitmap is a number below 256. The offset of a swap block has 32 bits with a sign, which is why
-- the invariant of virtual memory has a swap area of at most 2 ^ 19 blocks. Every loop is
-- recursion over the list or the number of rounds that bounds it, or, in Uio, on a number of
-- rounds that covers every byte and block.
--
-- Not modelled: the kernel heap, the copying and the ends of address spaces, the paging daemon, program
-- loading, the scheduler and context switches, the virtual file system behind its answers, SFS and its
-- journal, devices, the machine-dependent code but for vm.c and ram.c, user programs and libraries,
-- and the kernel's own tests. The deadlock detector's hooks, the names of objects and the handling of
-- interrupts inside a call are left out.
pub mod Base
pub mod Kernel
pub mod Files
pub mod Procs
pub mod Boot
pub mod Vm
pub mod Uio
pub mod Threadlist
pub mod Bitmap
pub mod Synch
mod Tests
