-- ===== src/Lib.antt =====
-- ferp is a memory allocator (tcmalloc) with a heap and a CPU profiler. src/tcmalloc.cpp hands
-- out memory: sizes up to 32 KB are rounded to a size class and served from per-thread free
-- lists, which trade batches with central lists; larger sizes and the central lists take spans
-- of pages from the page heap, which finds the span of a page in the radix tree of
-- src/pagemap.hpp. src/addressmap.hpp is the hash table in which the heap profiler keeps the
-- live allocations.
--
-- SizeClass models LgFloor, SizeClass, NumMoveSize, InitSizeClasses, pages and AllocationSize of
-- src/tcmalloc.cpp: the static arrays are the record Tables, a call of abort() is `none`, and
-- size_tables are the arrays that a process ends up with. LgFloor is the portable version in the
-- source; on x86 the compiler takes the instruction `bsr`, which finds the same bit.
-- PageMap.Three models TCMalloc_PageMap3 of src/pagemap.hpp, for any number of interior and leaf
-- bits; a null pointer is `none`, and the allocator is a parameter with a state of its own.
-- FreeList models the SLL_ functions and TCMalloc_ThreadCache_FreeList of src/tcmalloc.cpp over
-- a memory of words, with the 16-bit counters written out.
-- PageHeapAllocator models MetaDataAlloc and the allocator of the allocator's own objects, with
-- the chain of deleted objects as a list and the system's memory as a parameter.
-- SystemAlloc models TCMalloc_SystemAlloc of src/systemalloc.cpp and its sources over the system
-- calls, the record Kernel; SystemAlloc.Regions says what they are documented to do, in terms of the
-- addresses that a process has. The two allocators above and below take it as a parameter.
-- PageHeap models struct Span and TCMalloc_PageHeap: a ring of spans is the list of its members,
-- so DLL_Remove takes a span out of the list that has it, and is `none` for a span in no list; page
-- numbers and lengths are 64-bit words. PageHeap.Pages has Carve, Split, Delete, RegisterSizeClass, GrowHeap, New and Check. They
-- use the page map through PageMap.Interface, which TCMalloc_PageMap3 fills, and the system
-- through the record System; `none` is abort(), or an access outside the page map. The nodes of the
-- page map come from an allocator of its own, so their bytes are not in metadata_system_bytes.
-- Central models TCMalloc_Central_FreeList over the interface PageSource, which Central.Source
-- fills with the page heap: chains, rings and transfer slots are lists, the slot on top first.
-- Central.Transfer has InsertRange, RemoveRange and the trade of cache slots between classes.
-- ThreadCache models TCMalloc_ThreadCache over the interface Center, which ThreadCache.Lists fills
-- with the central lists; ThreadCache.Sampling has PickNextSample and Init, and ThreadCache.Caches
-- the list of all caches, with `none` for an abort() of the allocator of the caches.
-- Malloc models do_malloc and do_free over the page heap and the interface Caching, which stands
-- for the calls of the thread caches and central lists; Malloc.Align has the choices of
-- do_memalign, Malloc.Library the functions of the C library, and Malloc.Operators operator new.
-- Stats models ExtractStats and what is computed from it.
-- Traces models the array of stack traces that DumpStackTraces of src/tcmalloc.cpp writes and
-- PrintHeader of src/mallocext.cpp reads.
-- Profiler models ProfileData of src/profiler.cpp: the table of stacks, the buffer of evicted
-- entries, with a mark once a word went past its end, and the file, as lists of words;
-- Profiler.Records is a reader of such a file, and
-- Profiler.Write the loop around write(), which is a parameter.
-- HeapProfiler models the records of src/heap-profiler.cpp, with a bucket for each stack and the map
-- of live allocations; HeapProfiler.Recorded has the log of events that they are compared with, and
-- HeapProfiler.Memory the memory of the profiler itself.
-- HeapChecker models the search of src/heapcheck.cpp for the live allocations that can be
-- reached, over a memory of words, with the stack of objects and the set of ignored allocations
-- as lists; HeapChecker.Reach says what can be reached. HeapChecker.Ignore and
-- HeapChecker.Disable have what the program tells the checker, with ordered maps as sorted lists
-- in HeapChecker.Maps, HeapChecker.Phases the searches one after the other, and
-- HeapChecker.Leaks a leak check; HeapProfiler.Leaks and HeapProfiler.Dump have what a dump
-- counts then.
-- AddressMap models the class of src/addressmap.hpp: hash, clusters, blocks and entries, with
-- the chains as lists.
--
-- Loops run on fuel where they are not over a list: scan_sizes has 4097 rounds, since a size
-- grows by at least eight bytes to 32 KB; span_size has 16 rounds, and the tables are built, so
-- no class takes more; ensure has two rounds more than there are leaves up to the last key;
-- sll_size takes its fuel as an argument; carve_objects has a round for each byte of the span,
-- and release_batches one for each object; find_skip has a round for each page of the alignment;
-- write_loop has a round for each byte, of which every call takes one or more;
-- ignore_live_objects_locked has a round for each object on the stack and for each allocation,
-- which is put there at most once;
-- the loop of operator new runs as often as the program's handler returns, so its fuel is free.
--
-- Not modelled: printing, environment variables, signals, system calls, the hooks of MallocHk and
-- locks; a lock is taken to make a function's body one step. Of the CPU profiler the timer, the
-- signal handler and the list of mapped files are left out; of the heap profiler the hooks and the
-- text of the dumps. Of the heap checker the asserts, the stacks of
-- other threads, the mapped files and the reports are left out; what it allocates for itself in a leak
-- check is given as a list of calls.
pub mod AddressMap
pub mod Central
pub mod Common
pub mod FreeList
pub mod HeapChecker
pub mod HeapProfiler
pub mod Malloc
pub mod PageHeap
pub mod PageHeapAllocator
pub mod PageMap
pub mod Profiler
pub mod SizeClass
pub mod Stats
pub mod SystemAlloc
pub mod ThreadCache
pub mod Traces
