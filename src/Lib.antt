-- ===== src/Lib.antt =====
-- A verification library for the snippet repository: kernel modules and user programs in C.
--
-- The parts, and the files that model them (paths from the repository's root):
--   * Memdev: kernel-module/memdev/memdev.c, a character device whose `mmap` gives pages to a
--     process. `Memdev/State` has the file list, the regions and a ledger of what the kernel gave
--     and got back, and of the entries that an array held before; `Memdev/Regions` the list operations; `Memdev/Ops` the file and area operations
--     (`memdev_open`, `memdev_mmap`, `memdev_vma_close`, `memdev_release`, `memdev_ioctl`);
--     `Memdev/Setup` `memdev_init` and `memdev_exit`. `Memdev/Lifetime` runs the operations in any
--     order as a step relation.
--   * UnixSocket: linux-c/socket/unix-socket, `Exchange` for what its four runs share, `Server` for
--     server.c and `Client` for client.c.
--   * InetIo: linux-c/socket/inet-socket/inet_io.c, packets of a type, a length and a value.
--   * InetSocket: inet_socket.c beside it (`Setup`), and the programs server.c and client.c (`Demo`),
--     which send the packets of InetIo through the sockets of `Setup`.
--   * Config: linux-c/config-demo, `Sources` for defaults_source.c, env_source.c and cli_source.c,
--     `FileSource` for file_source.c and `Load` for config-demo.c. `Layers` is the interface of one
--     setting over all sources.
--   * PageTable: kernel-module/mm/page_table/page_table_walker.c (`Walker` for the walk,
--     `Request` for the device), and `Pagemap` for issue_queries.c beside it and linux-c/va-to-pa.c,
--     which find the same address another way.
--   * Semaphore: kernel-module/semaphore/semaphore_demo.c. `Racers` has the threads (`do_race`) and
--     the module's init, which a schedule interleaves, one shared access at a time.
--   * Netlink: kernel-module/netlink-generic. `GenlDemo` is genl_demo.c, `Reporter` reporter.c and
--     `Listener` listener.c; `Messages` is the interface of the messages that they exchange, and
--     `Packets` implements it. `Parallel` interleaves the handlers of genl_demo.c. `Delivery` follows an event through all three.
--   * UserSemaphore: linux-c/semaphore. `Utilities` is semaphore-utils.h, `Named` named-semaphore.c
--     and `Unnamed` unnamed-semaphore.c, whose two processes a schedule interleaves.
--   * Klog: linux-c/klog-demo.c. `ReadNew` is `klog_read_new`, `Demos` the rest of the program.
--   * Sysfs: kernel-module/sysfs. `DemoSysfs` is demo_sysfs.c, `Reader` demo_reader.c, `Entity` demo.h,
--     which both use.
--   * WorkQueue: kernel-module/kernel-tasks/work_queue_demo.c (`Works`), and in `Lifetime` the kernel's
--     workers beside it.
--   * BitMask: linux-c/sysfs-parser.c. `Parser` is `parse_array_to_bitmask`, `Sysfs` the rest.
--   * Perf: linux-c/perf-count.c. `Counters` has the two measurements and `main`, `Groups` and
--     `Releases` what is shown of them.
--   * MmShow: of kernel-module/mm/mm_show, `mm_show_init` of core.c and `pr_cont_size` of va_map_show.c.
--   * Kunit: the functions that the unit test demos of kernel-module/kunit test.
-- `Base` and `Posix` are shared: Boolean tests, lists, integers; the events that a user program
-- causes, the system's answers, C strings, and in `Posix/Ending` the ways in which a program ends:
-- it returns, it exits within a call, it reads through a null pointer, or it still runs.
--
-- How the code is modelled. A kernel module is a record of its state, and an operation a function
-- from the state and the kernel's answers to the new state and the value returned. A user program
-- is a function from a trace, the list of the calls that succeeded so far, to a longer trace and the
-- value returned; the system's answers are a parameter (`System`), a function of the trace, so each
-- call may fail at each point. Descriptors and blocks of memory are
-- computed from the trace. What stands behind a label in the source is an argument or a wrapper of
-- the step before it, so that each `goto` is a result. An error number is a negative integer. A
-- result that the code stores through a pointer is a component of the function's result.
--
-- Bounds and fuel. Machine integers wrap where the code computes with them (`atoi`, the physical
-- addresses, the numbers of events); numbers that only count are natural numbers. Loops are
-- recursion on the list that they run over. Three loops have fuel. The reading of a file line by
-- line gets as many rounds as the file has bytes, which is enough, since each round takes at least
-- one byte. The loop of the listener gets a number of rounds, and is `running` when they are used
-- up: with more rounds than events to wait for it comes to an end, and with no argument it is meant
-- to run for ever. The loop of `parse_array_to_bitmask` gets one round more than the text has
-- bytes, which is enough. Schedules are lists of turns of any length.
--
-- Left out: messages to the terminal and the kernel's log, and functions that only print; the
-- fields of an address that a call is given, beyond what names it; the memory of the strings in
-- Config, where `strdup` finds memory; `getopt_long`, whose results are a parameter; the
-- architecture's tests of page table entries, which are parameters; locks, which are taken and
-- released within one step; the sizes that reporter.c prints; the work that perf-count.c measures.
-- The other modules and programs of the repository are not modelled: the rest of the displays of
-- memory maps, the test cases and single examples.
pub mod Base
pub mod Memdev
pub mod Posix
pub mod UnixSocket
pub mod InetIo
pub mod InetSocket
pub mod Config
pub mod PageTable
pub mod Semaphore
pub mod Netlink
pub mod UserSemaphore
pub mod Klog
pub mod BitMask
pub mod WorkQueue
pub mod Sysfs
pub mod Perf
pub mod MmShow
pub mod Kunit
