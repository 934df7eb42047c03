-- ===== src/Lib.antt =====
-- Models of the programs of the CSE 320 assignments, hw1 to hw5, and what is proved of them.
--
-- The repository holds one program per assignment. They share no code. Modelled are the parts that
-- keep state or compute:
--
-- Registry: the client registry of the transaction server, hw5/src/client_registry.c. The
--   server's threads register a descriptor on arrival and unregister it when their client is gone,
--   while the main thread shuts all down and any number of threads wait for an empty registry.
--   `creg_init`, `creg_register`, `creg_unregister`, `creg_fini` and `creg_shutdown_all` are
--   functions of their names; `creg_wait_for_empty` is the two steps `wait_sem` and `check_empty`, which
--   Registry/Waiting interleaves with the others. Registry/Membership says which descriptors are
--   held. `total_clients` does not overflow.
-- Sfmm: the memory allocator, hw3/src/sfmm_block.c, hw3/src/sfmm.c and hw3/src/sfmm_analytics.c.
--   Sfmm/Word has the machine words and the header of a block, Sfmm/SizeClass the block sizes and
--   the choice of a free list, Sfmm/Memory the heap, Sfmm/Lists the doubly linked free lists and
--   the updates of neighbours (Sfmm/Lists/Ring: a list as a sequence), Sfmm/Coalescing merging and
--   the walks, Sfmm/Allocation `sf_malloc` and what it calls, Sfmm/Release `sf_free` and
--   `sf_realloc`. A heap is passed from call to call in place of the global memory. `sf_mem_grow`
--   of the object file hw3/lib/sfutil.o is a parameter. Pointers and `size_t` are numbers with
--   their wrap-around at 2^64 written out, an `int` is its 32 bits. A failed assumption of the code
--   (a NULL dereferenced, an address out of the heap) reads and writes a word as any other.
--   `abort()` is the outcome `aborted`. Loops run on fuel and end as `out_of_fuel` without it. For
--   a heap of n bytes the walk for the last block has n / 32 + 2 rounds, as it stops at a block
--   below 32 bytes, and the walk for the utilization n + 1, as it stops at a size of 0. Merging has
--   n / 16 + 2 rounds and the search of the free lists n / 16 + 12, more than the blocks that fit
--   into the heap and the ten lists; the growth of the heap has a round for each page asked for and
--   three more.
-- Server: the transaction server, hw5/src. Server/Blobs has the reference-counted blobs, keys and
--   versions of data.c as places in a list of all blobs ever created, where the use of a freed blob
--   is a fault, Server/Packets the packets of protocol.c down to their bytes, Server/World
--   what a service works on, Server/Session the thread of one client, `xacto_client_service` of
--   server.c, which uses these and the registry. The loop runs for given rounds, with what `malloc`
--   does in each; one more than the bytes that the client sends are enough. `readn` and `writen` of
--   csapp.c and the store and the transactions of the library hw5/lib/xacto.a are parameters.
-- Deet: the debugger, hw4/src. Deet/Children has the table of children (track_children.c) as a
--   list in the order of the ring round `sentinel`, Deet/Commands the commands on a child
--   (child_processes.c), Deet/Reaping the handlers of SIGCHLD and of the shutdown (signaling.c),
--   Deet/Text the text helpers (util.c), Deet/Input the reading of command lines (deet_func.c),
--   where the loop over the tokens has a round more than the bytes, Deet/Dispatch the switch of the
--   command loop (main.c), Deet/Waiting the wait for a child (signaling.c), step by step beside the
--   handler of SIGCHLD. Signals sent, log lines and printed summaries are events of the model. What
--   `waitpid` and `ptrace` return is a parameter. Numbers on a command line do not overflow an `int`.
-- Grades: the gradebook. Grades/Sorting is hw2/src/sort.c over any type of entry and any
--   `compare`; the loop of `partition` runs on the distance of its ends, `sorttable` on fuel; a
--   round more than twice the entries is enough. Grades/Rosters has the functions on students round
--   them. Grades/Course has the data of hw2/include/gradedb.h and stats.h, Grades/Links
--   `buildstats` and `do_links` of hw2/src/stats.c, with the links of the course roster as memory,
--   Grades/Statistics the passes of `statistics` after them, Grades/Normal and Grades/Normalize
--   hw2/src/normal.c. Lists linked by `next` are lists, pointers into them are places, and a read
--   through a null or stray pointer is `none`. The arithmetic of `double` and `float` and `strcmp`
--   are parameters; comparisons with the scores of a frequency table go by the place of a number
--   in their order. The roster is walked with fuel for its students. Grades/Frequencies and
--   Grades/Extremes have the tables and the extremes of one assignment by themselves.
--   Grades/Templates is `is_valid_template_string` of hw2/src/err_string.c.
-- Taxonomy: the options and helpers of the tree builder, hw1/src/validargs.c, compare.c and
--   util.c. `stringify_number` runs on fuel; one call more than the number is enough.
-- Base: the shared helpers, Boolean tests, lists, integers and the bits of words.
-- Examples: the theorems at concrete inputs, and runs of the allocator and of the sorting.
--
-- Not modelled: the floating-point code of hw1 (src/philo.c), the parsing, printing and freeing of
-- hw2 (src/read.c, src/report.c, src/free.c and others), the sockets, threads and options of hw5,
-- the output of hw4, and hw0, which prints a greeting. They are input and output, or computations
-- on `double`, or calls of libraries whose source is not in the repository.
pub mod Base
pub mod Registry
pub mod Sfmm
pub mod Deet
pub mod Grades
pub mod Taxonomy
pub mod Server
pub mod Examples
