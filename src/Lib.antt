-- ===== src/Lib.antt =====
-- Verification of vexspoke, a C library for computation on the CPU (src/).
--
-- The parts and their files:
--
--   src/struct/exhaustion.c   Struct/Exhaustion    counted refusals, one diagnostic per epoch
--   src/struct/collection.c   Struct/Collection    the header of every container, slot access
--   src/oop/stride.c          Struct/Instant       element widths; the containers' constructor
--   src/struct/list.c         Struct/ArrayList     `List`: Refine (runs of calls), Limits (sizes)
--   src/struct/stack.c        Struct/Stack         `Stack`
--   src/struct/deque.c        Struct/Deque         `Deque`: Cells, Growth, Refine
--   src/struct/queue.c        Struct/Queue         `Queue`, over the deque's bodies
--   src/struct/sparseset.c    Struct/SparseSet     `SparseSet`: Dense (invariant), Members
--   src/regex/charclass.c     Regex/CharClass      the 256-bit byte set of a regex class
--   src/algo/sort.c           Algo/Sort            the comparison sorts and the int32 partition
--   src/search/find.c         Search/Find          substring search and SQL wildcards
--   src/time/datetime.c       Time/DateTime        calendar fields of an instant, over the signed integers
--                                                  of Time/Signed; Time/Floors: its borrows are floors
--   src/time/calendar.c       Time/Calendar        date arithmetic: Shifts, Weekday
--   src/atomic/spin.c         Atomic/Spin          `SpinLock`, one atomic word; a release is two accesses
--   src/atomic/ring.c         Atomic/Ring          `RingBuffer`, with counters that wrap: Slots, Refine
--   src/util/hash.c           Util/Hash            FNV-1a and the Murmur finalizers
--   src/regex/nodelist.c      Regex/NodeList       the nodes of a parsed pattern
--   src/regex/program.c       Regex/Program        the compiler: Tree, Code (what it emits), Emission,
--                                                  Building
--   src/regex/vm.c            Regex/Vm             the machine: Threads, Captures, Rows, Marks,
--                                                  Visits, Closure, Hits, Matching, Finding,
--                                                  Deciding, Reporting;
--                                                  Regex/Language is what a pattern means
--   src/regex/span.c          Regex/Span           a stretch of the subject
--   src/struct/map.c          Struct/Map           `Map`: Mask, Probe, Lookup
--   src/struct/set.c          Struct/Set           `Set`, over the probes of the map: Adding
--   src/struct/minheap.c      Struct/MinHeap       `MinHeap`: Order, Up, Down, Contents, Push, Pop
--   src/regex/parser.c        Regex/Parser         the recursive descent: Lexical, Nodes, Descent;
--                                                  Ends, Reading, Classes, Linked, Building, Groups,
--                                                  Atoms, Repeats and Trees are its proofs
--   src/regex/regex.c         Regex/Handle         compilation and the searches: Deciding, Text
--
-- State and operations. A C struct is a record; a function that updates a struct takes the record
-- and returns it, beside the C result. A handle is the record that it points at, so the branches
-- on a null handle are not modelled, but for those of src/regex/regex.c. An array is a list with
-- native indices; a container's buffer is the list of its slots, a slot being the number that its
-- bytes spell in little-endian order.
-- Instants, days and years are signed integers without a bound, which an int64_t of milliseconds does
-- not leave. Unsigned arithmetic wraps where the C types wrap: `u32` and `u64` are written at each place.
-- `Memory_alloc` and the type-id algebra belong to another repository: an `Arena` is a parameter
-- of each operation that allocates, and may refuse, or grant a block of any contents. Freeing is
-- not modelled. `THROW` writes a line to stderr and is modelled only where it is counted.
--
-- Fuel: the doubling loop of `bufferGrow` has fuel 65, and one round is enough wherever the list
-- calls it, since it asks for one slot more than the capacity. `siftDown` has the size of
-- its range as fuel, and each round goes to a larger index; the halving loop of Sort_quickSort has
-- the 64 rounds that a size_t allows. `match_like` takes its fuel as an argument and returns `none`
-- where a run needs more. `emit_node` and
-- `read_tree` have a depth as fuel and refuse a deeper tree; the loop of addThread has the capacity of
-- its stack, 4 * n + 8, as fuel: each of the n places is visited once, and a visit puts at most two
-- tasks on the stack. The loop of Map_put takes its
-- fuel as an argument: it has no bound in the code. The loops of
-- sift_up and sift_down have the index and the size as fuel. The loops of the
-- parser have the length of the pattern and one as fuel, since each round moves on by a byte, and its
-- recursion 130 levels, since a group at depth 128 is refused. The index of the root and one is fuel
-- enough for the depth of the nodes, whose links lead to earlier nodes.
--
-- Not modelled: Calendar_addMonths where the count of months from the year 0 is negative;
-- floating-point modules (math, lang, geometry, audio), platform bridges, threads and timers, network
-- clients, and the other files listed in the manifest as not modelled.
pub mod Base
pub mod Algo
pub mod Atomic
pub mod Regex
pub mod Search
pub mod Struct
pub mod Time
pub mod Util
