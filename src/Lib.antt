-- ===== src/Lib.antt =====
-- A verification library for the C programs of the textbook "deep C data structures". Each program
-- is a file at the root of the repository; the functions of a file are modelled by the module named
-- here, and a function keeps its name.
--
--   Prelude, Run, Array, Memory, Bits: what the programs share. A C array is the list of its cells,
--     and an access outside it is the outcome `fault` (so is a failed assert); a call that ends well
--     is `ok`. malloc and realloc belong to the C library: they are the parameter `Memory`, with the
--     laws that a block has the size asked for and that realloc keeps the common cells.
--   Heap (children Invariant, Up, Down, Ends, Drain): `sift_up` and `sift_down`, which min_heap.c,
--     priority_queue.c, event_scheduler.c, task_scheduler.c and heap_sort.c each write out for their
--     own cell type and comparison.
--   MinHeap: min_heap.c. HeapSort: heap_sort.c. PriorityQueue: the second half of priority_queue.c.
--   EventScheduler: event_scheduler.c. TaskScheduler: task_scheduler.c. These five use Heap.
--   RingBuffer: ring_buffer.c.
--   Vector (children Room, Insert, Remove, RoundTrip, Access): vector.h and vector.c. An element of
--     elem_size bytes is one cell.
--   Search (child Binary): search_compare.c.
--   StaticArray (children Least, Reverse, Transpose): static_array.c. Its binary_search is the code of Search.
--   BracketChecker (children Scan, Grammar): bracket_checker.c. Positions are taken as fitting an int.
--   Stack (children Lifo, Brackets, Postfix, Evaluate): stack.c. Postfix (children Room, Digits, Enough) is
--     infix_to_postfix, Evaluate is eval_postfix over the parameter Double, Brackets compares
--     check_brackets with the one of bracket_checker.c.
--   OpenAddressing (children Scan, Land, Look, Kept, Put): hash_open_addressing.c. Whether strdup finds
--     memory is an argument.
--   HashFunctions (child Agree): hash_functions.c.
--   Chaining (children View, Move, Chains, Methods): hash_chaining.c. Whether calloc, malloc and strdup find
--     memory are arguments; the comparison of floats is the parameter `exceeds`.
--   DynamicArray (child Amortised): dynamic_array.c.
--   Links (children Route, Insert, Delete, Priority): doubly_linked_list.c, list heads at addresses.
--   SinglyLinked (children Segment, Grow, Reverse, Cycle): singly_linked_list.c, nodes at addresses.
--   Deque (children Nodes, Ends, Pop, Whole): the first half of priority_queue.c, on Links.
--   FreeList (child Chain): the links inside free slots, for Pool and EmbeddedPool.
--   Pool (children Slots, Start, Reached): pool_allocator.c. EmbeddedPool: embedded_pool.c.
--   Arena (child Bump): arena_allocator.c.
--   MergeQuick (children Slice, Merged, Sorted): merge_quick_sort.c.
--   LockFree (children Keeps, Memory, Moves, Linear): lockfree_stack.c, a step relation over any number of threads;
--     memory is sequentially consistent and the values of the nodes are left out.
--   SlabCache (children Slot, Bitmap, Counts, Keep, Release): slab_allocator.c. What malloc returns is an argument; the lists partial
--     and full are lists of slabs.
--   SimpleSorts (children Ordered, Selection, Bubble, Insertion, All): simple_sorts.c.
--   Tests: runs at concrete inputs, and the theorems applied there.
--
-- State is passed explicitly: a function that updates its struct returns the new struct. A loop is a
-- recursion on the rounds left where the code counts them; a `while` loop takes fuel, and the
-- theorems show that the fuel given is enough: `i + 1` rounds for sift_up, `size + 1` for sift_down,
-- for a tick and for running all tasks, `n + 1` for a binary search and for a reversal, 65 for
-- next_power_of_two, one more than the operators on the stack or the characters left for the loops of
-- stack.c; where the buffer of infix_to_postfix is full its loop does not end, for any fuel.
--
-- An int or time that a program only copies and compares is represented by its value plus 2^31 (or
-- 2^63): the order of the ints is the order of these numbers. A size_t that can wrap is taken modulo
-- 2^64 where the code computes with it; the invariants bound capacities by what an address space
-- holds, so that doubling one and computing an index do not overflow. The child
-- indices of min_heap.c, event_scheduler.c and heap_sort.c are ints, and one that overflows is a `fault`:
-- a heap of fewer than 2^30 cells keeps them in range. Pointers that are only stored
-- are their addresses. Callbacks are addresses or functions; what they do besides their result is
-- not modelled, nor are printing, timing, free, and the demonstrations in main.
pub mod Prelude
pub mod Run
pub mod Array
pub mod Memory
pub mod Bits
pub mod Heap
pub mod MinHeap
pub mod HeapSort
pub mod EventScheduler
pub mod TaskScheduler
pub mod PriorityQueue
pub mod RingBuffer
pub mod BracketChecker
pub mod Vector
pub mod Search
pub mod StaticArray
pub mod OpenAddressing
pub mod Stack
pub mod FreeList
pub mod Pool
pub mod EmbeddedPool
pub mod Arena
pub mod SimpleSorts
pub mod SlabCache
pub mod HashFunctions
pub mod DynamicArray
pub mod Links
pub mod Deque
pub mod Chaining
pub mod MergeQuick
pub mod SinglyLinked
pub mod LockFree
pub mod Tests
