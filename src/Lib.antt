-- ===== src/Lib.antt =====
-- puma: a library of unordered sets of elements that are spread over threads, each thread with a
-- list of nodes of its own, on which kernels are run in parallel.
--
-- The parts, and the files that model them:
-- * A node is a block of PUMA_NODEPAGES pages, aligned to its size: a header, the buckets of a bit
--   mask and an array of elements. Bitmask (src/internal/bitmask.c) is the mask, in which the bit of
--   a free place is 1; its child modules are about one bit (Access), the searches (Scan, Buckets,
--   Find), the creation of a mask in an element array (Room, Create) and its text (Print). Util
--   (src/internal/pumautil.c) computes the addresses of elements and nodes.
-- * Memory holds nodes (include/internal/pumanode.h) and thread lists
--   (include/internal/pumathreadlist.h), each at its address, and the elements. A function of the
--   source that reads or writes them is a command `M`: it passes memory on, or is a fault (`none`)
--   on a read through NULL or a dangling pointer, on a failed `assert`, and on `exit(-1)`.
-- * Node (src/internal/pumanode.c, alloc.c, free.c) gives out and takes back the elements of a node,
--   frees, appends and cleans up nodes; its child modules say when a node is well formed (Invariant,
--   Filled), and are about one element (Elements), a new node (Create, Append) and a node that is given up
--   (Trim). Alloc (src/pumalloc.c) is `_pumallocOnThreadList` and
--   `pufree`; the choice of a thread list, `pumalloc` and its two balancing forms, is in Set, with
--   `getNumElements` and `pumaSetBalancer` (src/pumaset.c). Kernel (src/pumakernel.c) runs a kernel
--   on a node and on the nodes of a thread (OnNode, Thread). Node/Chain is the doubly linked chain that
--   a thread list stands for.
-- * Set/Create and Set/Destroy (src/pumaset.c, src/internal/pumadomain.c,
--   src/internal/pumathreadlist.c) are the life of a set; Lists, Overrun and Freed are about them.
-- * Balance (src/internal/pumabalance.c) moves nodes between thread lists; Balance/Auto is the choice of
--   how many, and Balance/Even is about a choice of none. Balance/Transfer and the files that it uses
--   (Segment, Shape, Moved, Splice, Front) are about a transfer of nodes from one list to another;
--   Lists and Between about a transfer between two of several lists; Push, Stacks, Round, Loop and Level
--   about the two stacks of a balance, and Ends about the whole of it. The share of a list, which the
--   source computes in floating point from the run times, is the parameter `share`.
-- * ExtraData (src/extradata.c) is the extra data of kernels. Run (src/pumakernel.c) runs a list of
--   kernels on a set: it balances the lists, and the threads of the pool make their extra data, run
--   the kernels, reduce and destroy. Run/Whole is about the whole run.
-- * ThreadPool (src/pumathreadpool.c) is the start of the workers. ThreadPool/Rounds has the calls of
--   `executeOnThreadPool` and the loops of the workers as steps between the calls of the barriers and
--   the lock, in any order; Places is where the threads can be at the same time, Turns and Safety are
--   about one step, and Once, Progress and Stuck about the whole. Set runs the workers' function on a
--   pool as one call for each thread, in any order. StaticVar (src/pumastaticvar.c) is
--   thread-local data. Barrier (include/internal/pthreadbarrier.h) is the barrier for systems that
--   have none, with its threads as a step relation.
-- * Log (src/internal/pumalog.c) puts a prefix in front of a format string; Log/Format is about it.
--   `vfprintf` is a parameter.
-- * Base, Bits and Word are helpers: lists, Boolean tests, faults, the bits of numbers, and the
--   operations of `uint64_t` and `size_t`, which wrap at 2 ^ 64. Tests has the theorems at small
--   concrete states.
--
-- A definition carries the name of the function, structure or field that it models in this library's
-- spelling: `pumaBitmaskSet` is `bitmask_set`, `_allocElementOnNode` is `alloc_element_on_node`. The
-- body of a long function is cut into named parts, each with a comment that says which part it is.
--
-- Fuel: loops over the buckets, bits and places of a mask, over CPUs and over threads are structural
-- recursion on the rounds to go. The loop of `_runKernelOnNode` moves on or counts an element as
-- skipped, each at most about `capacity` times, and has 2 * capacity + 2 rounds. The loop of
-- `_cleanupNode` fills a place of its node in each round but the last, and has capacity + 1. The
-- loops over the active nodes of a list, of which there are `numNodes`, have two rounds more than
-- that. `pumaDeleteStaticData`, `destroyPumaSet` and `_emptyThreadList` take their fuel as an
-- argument. The loops of a transfer over its nodes have one round for each of them. The loop that
-- empties the two stacks of the balance takes a list off one of them in each round, and has one round
-- more than there are lists.
--
-- The build is that for Linux without NUMA and without OpenMP, with assertions. Not modelled: calls
-- of libnuma and of valgrind, page moves, run times and profiling, and `freeThreadPool`. The calls of the
-- workers' function that overlap in time run one after another, and the threads of a pool are not
-- woken without a broadcast. `malloc` and `posix_memalign` do not fail; the addresses that they give
-- are part of the state. Counts of nodes and elements, which memory bounds, are added without the wrap
-- at 2 ^ 64, but for those that follow from the `int` in `_appendPumaNode`; where one is taken off another, the wrap is written out unless a test or an assertion
-- before it rules it out. The header's size, `sizeof(struct pumaNode)`, that of a thread list, the
-- page size and the number of processors are parameters.
pub mod Base
pub mod Bits
pub mod Word
pub mod Bitmask
pub mod Memory
pub mod Util
pub mod Node
pub mod Alloc
pub mod Kernel
pub mod Log
pub mod StaticVar
pub mod ThreadPool
pub mod Set
pub mod Barrier
pub mod Balance
pub mod ExtraData
pub mod Run
pub mod Tests
