-- ===== src/Lib.antt =====
-- cuMatch, a subgraph matcher on the GPU.
--
-- A data graph is stored as a grid of shards, blocks of edges in a compressed format with 24-bit
-- vertex ids. A query is a small graph. The scheduler looks for combinations of shards, one for
-- each query edge, that may hold a match, and keeps them in a plan tree. The plan is handed out
-- in groups of shards that fit the device, and a kernel joins the adjacency lists of the shards
-- of a task by intersecting them, one query vertex after the other, depth first.
--
--   Flip24     include/gstream/flip24_array.h, arrays of 24-bit numbers. Memory is a function
--              from addresses to bytes.
--   Shard      include/gstream/grid_format/flip24_shard.h, the header of a shard and the
--              adjacency lists in it; the searches over a shard.
--   Search     source/cuMatch/kernel_aux_tools.cu, the binary searches of the kernels, on 32-bit
--              numbers. The width of the range is the fuel: each round narrows it.
--   SchedTree  source/cuMatch/sched_plan_tree.cpp, the plan tree, its traversals and
--              pop_grid_group. The fuel of the traversals is the number of nodes. Regenerate is
--              the tree of one kernel task and its arrays; a tree of 500 nodes or more is refused.
--              Tasks is the choice of the groups of a kernel task; its fuel is the number of
--              rounds that the plan has left, and one more.
--   Kernel     source/cuMatch/LFTJ_kernel_basic.cu, set_intersection_initial_basic and
--              set_intersection_resume_basic. The shared arrays of a thread block are the fields
--              of a record. A loop that the threads share takes the order of its atomic additions
--              as an argument.
--   Parser     source/cuMatch/simple_parser.cpp, the texts of a query file. Bytes are numbers, and the
--              tokenizer is an argument; what is relied on is the record IsTokenizer.
--   QueryGraph source/cuMatch/query_graph.cpp, from parsed vertices, edges and constraints to the
--              query graph. Names are any type with an equality test.
--   Scheduler  source/cuMatch/lgf_scheduler.cpp. Orders is the order of the query vertices and
--              edges for the attribute join and for the table join, Globals the constraint arrays of
--              `init_global_kernel_info`, the rest is the search for combinations of shards. It
--              recurses on the number of edges that are left. The shard trees of the grid are a
--              function that gives the switch nodes at the bottom of the tree of a block.
--   Cache      include/gstream/framework3/detail/lru_cache_policy.h and
--              include/cu_match/cache_controller.h, the cache of shards in device memory: keys in
--              the order in which they go, holders, and the array of values.
--   KernelLoop  source/cuMatch/LFTJ_kernel_basic.cu, LFTJ_kernel_basic: the variables of the block
--     are a Machine, the body of `while (true)` is `step`, a `break` is its second result, and `run`
--     is the loop on fuel. The two intersection functions are a record Joins, and what the loop
--     relies on is the record IsJoin of KernelLoop/Spec, which also counts the matches by recursion.
--     Frames says what a walk below a tree node leaves as it is; Vertices, Children and Buffers are
--     the three ways to come back to a depth; Counts and Totals put them together. Basic gives the
--     two functions of Kernel to the loop: Agree and Chunks are about what their results hang on,
--     Keep about what they leave alone, Rounds about the buffers of a depth, Laws about IsJoin.
--   Negative   source/cuMatch/LFTJ_kernel_negative.cu: the intersection functions with the test for
--              negative edges, given to the main loop of KernelLoop, which this kernel shares.
--   Optional   source/cuMatch/LFTJ_kernel_optional.cu: the intersection functions with the short
--              buffers, and in Loop the main loop with its flags. Last is about the intersection at
--              the last depth, Firsts at the others, Buffers about one vertex of a buffer, Outer and
--              Kernels about a whole buffer, Opening about the step that makes it.
--   Constraint source/cuMatch/LFTJ_kernel_constraint.cu: the intersection functions with the test for
--              constraints. Its main loop is not modelled.
--   NegativeConstraint source/cuMatch/LFTJ_kernel_negative_constraint.cu: the intersection functions
--              with both tests. Its main loop is not modelled.
--   TableJoin  source/cuMatch/table_join_kernel_basic.cu, MJ_intial_basic and MJ_resume_basic. The
--              fuel of the loop for the last edge is the number of sources of the shard; a list
--              over which the loop may not end is a fault.
--   DeviceManager source/cuMatch/device_manager.cu: the header of a kernel task in the buffer for the
--              device, and the loading of its shards through the cache with one GPU. The buddy
--              allocator is a record of operations and laws. Evictions take as much fuel as there
--              are free keys, and one more.
--   Prelude    Booleans, lists and options that the parts share.
--   Tests      runs on small inputs.
--
-- An assertion of the source that fails, an access behind an array and signed overflow are
-- faults, the value `none` of an option: what the release build, which compiles assertions out,
-- does behind them is not modelled; in the main loop of Optional a fault is a flag of the
-- machine, which stops the loop. The removal of a list node that another list holds, which the
-- container in include/ash does not check, is `none` too. Unsigned 32-bit arithmetic wraps where
-- the source's may.
-- Not modelled: the matching order, which is that of the query file, with assertions only; the kernel
-- with optional edges and constraints, and the main loops of the kernels with constraints, which
-- repeat the code of Optional, Constraint and KernelLoop with one more branch; the main loop of the
-- table join and the upper part of the device manager, which hand out the tasks and copy the
-- results; and, as they are input and output or the work of other code, the file formats and their
-- generators, the CUDA runtime, the copies between host and device, the allocators and containers
-- of include/ash, and the command line.
pub mod Prelude
pub mod Flip24
pub mod Search
pub mod Shard
pub mod SchedTree
pub mod Kernel
pub mod QueryGraph
pub mod Scheduler
pub mod Cache
pub mod DeviceManager
pub mod TableJoin
pub mod KernelLoop
pub mod Negative
pub mod Constraint
pub mod NegativeConstraint
pub mod Parser
pub mod Optional
mod Tests
