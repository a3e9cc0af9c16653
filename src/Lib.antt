-- ===== src/Lib.antt =====
-- rBench, a generator of interference: it puts load of a chosen strength on the processor, its
-- caches, the memory, the disk or the network.
--
-- `rbench.cpp` reads the command line into a list of tasks, each a stressor and its arguments, and
-- runs them. The arguments' defaults come from what `rbench-core.cpp` reads of the machine. The
-- stressors draw random numbers from `core-mwc.cpp` and `core-lfsr.cpp`.
--
-- - Base: tests on numbers, lists, words of w bits, bit operations, signed numbers and the C
--   library's functions on texts, which are lists of character codes.
-- - Flags: `set_arg_flag`, `clr_arg_flag` and `get_arg_flag` of rbench-core.cpp.
-- - Lfsr: the shift register of core-lfsr.cpp. A method returns its result with the state after it.
-- - Mwc: `mwc_t` of core-mwc.cpp; Mwc/Modn its draws modulo a number, Mwc/Fill `fill_array` on a
--   memory of bytes. The loops that draw again take fuel, the number of draws; `none` says that it
--   ran out. The loop on the threshold takes as many rounds as the word has bits.
-- - Cpuinfo: `read_cpuinfo` and `get_data_cache_size_level` of rbench-core.cpp. What `sysconf` and
--   the files of sysfs answer is an argument.
-- - Opts: the types and tables of rbench.cpp; Opts/State the state of `parse_opts`, Opts/Handlers
--   and Opts/Run the cases of its `switch`, Opts/Parse the whole. `pargs` points to the last task,
--   whose arguments the state holds apart from the tasks before it. `getopt_long` belongs to the C
--   library: what it returns is the list of events. `none` is a read through a null or an end
--   pointer, which C++ leaves undefined.
-- - Control: `strength_to_time`, `membw_to_time` and `network_pps_to_time` of rbench-core.cpp, over a
--   record of the operations on `double` that they use. 32-bit results are bit patterns.
-- - Stress: the loop of a stressor; Stress/Threads the threads that run it, in rbench-cpu-int.cpp,
--   rbench-cpu-float.cpp, rbench-cpu-l1i.cpp, rbench-cpu-cache.cpp, rbench-cpu-tlb.cpp,
--   rbench-simd-avx.cpp, rbench-simd-avx512.cpp and rbench-mem-bw.cpp: what the clocks read in each
--   turn is an argument, and so is the number of turns, the fuel; `none` says that the loop still runs.
-- - Net: the checksum of packets and `UdpSocket` of core-net.cpp, over the answers of the system;
--   Net/Transfer its `Bind`, `Recv` and `Send`.
-- - UdpTest: the client and the server of udptest/, over the answers of the system.
-- - Udp: rbench-udp.cpp. Udp itself has the search for a port, with the number of tries as fuel, at
--   most 65532 of them; Udp/Packets the packets and the kernel of the server; Udp/Threads the
--   threads of both sides; Udp/Entry both main threads; Udp/System the threads of the server beside
--   its main thread as a step relation, in which each store and each round is a step; Udp/Client
--   those of the client in the same way; Udp/Look a look of the monitor at `conns` read by read,
--   where Udp/System has it at one moment; Udp/Total the sums over all threads that both share. What
--   the sockets answer is an argument, and so are the numbers of receives and of looks at `conns`,
--   the fuel; `none` says that a loop still runs. `*pconn` is a double: Udp/Threads takes its rounding
--   as an argument, and elsewhere in Udp counts are whole numbers, as doubles are up to 2 ^ 53.
-- - Disk: the kernel of rbench-disk.cpp, as the calls that it makes on the file; Disk/Bench its thread.
-- - Kernels: what the stressors run: Kernels/Integer in rbench-cpu-int.cpp, Kernels/Membw in
--   rbench-mem-bw.cpp, Kernels/Tlb and Kernels/TlbStep in rbench-cpu-tlb.cpp, and Kernels/Cache in
--   rbench-cpu-cache.cpp, as the cells, addresses and indices of their accesses. The rounds of the
--   cache kernel are fuel; 821 are enough. Kernels/L1i has the blocks of instructions that
--   rbench-cpu-l1igen.cpp prints, and their run; its steps are fuel, and what `%r10` counts down is
--   enough. Kernels/Membw/Rounds has the memory kernel's initialisation and its calls one
--   after another. Kernels/Float and Kernels/Avx have the kernels of rbench-cpu-float.cpp and
--   rbench-simd-avx.cpp over the arithmetic of the machine, and Kernels/Warn the flag by which they
--   warn.
-- - Mapping: `mmap_with_retry` of rbench-core.cpp over the answers of `mmap`, and the line size and
--   the threads of rbench-cpu-cache.cpp up to their loop, with the addresses that they count up;
--   Mapping/Tlb the threads of rbench-cpu-tlb.cpp up to theirs, with the memory that they leave,
--   or a fault where a word that they count up cannot be written; `mapped` says which words can.
-- - Messages: the `pr_` functions of rbench-core.cpp, and threads that call them in any order, with
--   `global_pr_mtx` between them, as a step relation. A call of printf is one step.
-- - Launch: the entries of the stressors and `main` of rbench.cpp from `parse_opts` on: which threads
--   are started and where they are joined. The threads of the network are joined by their own entries.
-- - Validate: the programs of validate/. Validate/Int and Validate/Float have the sums over integers
--   and doubles, the latter a parameter; Validate/Divfloat those over quotients of doubles, with the
--   rounding of IEEE 754 as a hypothesis; Validate/Access the random accesses. The iterations of the
--   loops are fuel.
-- - Tests: the theorems at concrete inputs.
--
-- A word of w bits is a natural number below 2 ^ w, and wraps where the source wraps.
--
-- Not modelled: the help and the printed tables; the clocks, which only call the system; the vector
-- kernel of rbench-simd-avx512.cpp, since immintrin.h has none of its intrinsics for sums and
-- permutations; the head and the foot of the text of rbench-cpu-l1igen.cpp but their registers; and
-- the overflow of the index of `fill_array`, which is an `int`, within three bytes of its end. Of the other kernels over floating-point
-- numbers, what the results are is not modelled, as it depends on the rounding of the processor.
pub mod Base
pub mod Flags
pub mod Lfsr
pub mod Mwc
pub mod Cpuinfo
pub mod Opts
pub mod Control
pub mod Stress
pub mod Messages
pub mod Net
pub mod Udp
pub mod UdpTest
pub mod Kernels
pub mod Mapping
pub mod Launch
pub mod Validate
pub mod Disk
mod Tests
