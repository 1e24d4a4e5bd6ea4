-- ===== src/Lib.antt =====
-- Functional Simulation Engine: the kernel of a simulator that calls blocks and subprograms in
-- turn, over typed variables.
--
-- A task is a tree of blocks. A block holds variables, children and subprograms. In a step the
-- scheduler says which of them are called and in which order; a condition, a formula over the
-- variables, says whether each is on; what a call returns is written into the variables of the
-- block. Blocks of the class `UdpExchange` turn messages into variables and variables into messages.
--
-- Files and what they model:
--   StdMap     `std::map` as an association list in the order of its keys. A value of the type
--              `Map` may be any list; theorems that need distinct keys say so.
--   Remap      kernel/detail/remappable_map.hpp. The maps behind the shared pointers stand in a
--              heap, so sharing and copying differ.
--   Names      kernel/detail/std.hpp, `StdStringSpec`: `extract_block_name`, `compose_block_name`; its
--              printing of information stands in Command.
--   Result     C++ code that may throw or be undefined, with the exceptions of the kernel.
--   Formula    kernel/detail/std.hpp, `formula_solver`: `StdFormulaSolver`, `Operations`,
--              `LogicOperations`. Spaces are those of the classic locale.
--   Param      kernel/param.hpp, kernel/holder.hpp, kernel/typefactory.hpp and
--              kernel/detail/std_types.hpp. The class of a holder is the constructor of its value;
--              `tInt` is a bit pattern below 2^32; `double` is the parameter `Floats`.
--   Scheduler  kernel/detail/std.hpp, `StdScheduler::get_nextcall_objs`. Blocks and subprograms are
--              asked through the record `Queries`.
--   Exchange   kernel/block_class/exchange_common.hpp and kernel/block_class/udp_exchange.hpp:
--              `calc_control_sum`, `input_vars`, `output_vars`. Bytes are numbers, two bytes are a
--              word with the low byte first; reads outside a message are undefined. What the
--              network delivers is an argument, what is sent is a result. Exchange/SharedMemory
--              is `shared_memory_io` of kernel/block_class/shared_memory_io.hpp, on a mapped region.
--              The settings and the joining of both classes stand in their modules `Settings`, with
--              the opening of a memory by kernel/block_class/boost_shm_object.cpp.
--   Block      kernel/block.hpp: the variables of one block, the accordances with the block above,
--              `write_variables`, the values at power edges, the queue of errors. What goes to the
--              logger is a list of events.
--   Callable   kernel/callable.hpp: times, priority, lock and power condition. Each operation is
--              given the seconds since the object was made; what a `call` does is an argument.
--   Control    kernel/control_func.hpp: the parameters of a control function and the storage.
--   Instruction  process/simple_instruction_parser.hpp: `parse`. A position is the text from there
--              on; the locale and the decoder are parameters.
--   Dispatcher process/dispatcher.hpp: `make_step`, `run_once`, `run_steps`, `run` and the handler of
--              signals. The clock, the reader of instructions, the control functions and the main
--              block are the interface `Environment`.
--   Subprogram kernel/subprog.hpp and kernel/function_storage.hpp: the stored functions, and the call
--              of one on a heap that holds the variables of the block and of the block above. A
--              function may throw and may change the world.
--   Tree       kernel/block.hpp: a block with its children. `Site` has the fields that are a block's
--              own; what a pointer into the tree changes is changed in place. Tree/Calling is `call`
--              and `operator()`: the clock, the functions and the objects of classes are a
--              `Machine` on a world; Tree/Messages has the texts of the handlers;
--              Tree/Linked is about what a block must know of its children.
--   Command    kernel/control_func: the standard control functions, each on the tree of blocks.
--   BlockClass kernel/block_class.hpp: the base of the classes of blocks and its joining with a block.
--   Loader     loader/yaml_block.hpp: how a block is made of what its node says. `Classes` is what
--              the classes of blocks do. Loader/Nodes is the reading of nodes over the interface
--              `Yaml` of the YAML library: of variables, states and subprograms
--              (loader/yaml_parameter.hpp, yaml_detail.hpp, yaml_subpr.hpp), of blocks with all below
--              them (Loader/Nodes/Blocks) and of the exchange classes (Loader/Nodes/Exchanges:
--              loader/yaml_inet_address.hpp, yaml_block_class_udp_exchange.hpp,
--              yaml_block_class_shared_memory_io.hpp). Loader/Task is loader/task.hpp, yaml_lib.hpp
--              and load_lib.hpp, with the dynamic linker as the interface `System`; Loader/Config is
--              loader/config.hpp, with the file system and the options of files as `Files`.
--   Mailbox    process/boost_tcp_instruction_reader.cpp and kernel/block_class/udp_networking.cpp:
--              the queue between the thread of the network and the main thread, with its lock. An
--              interleaving is a list of actions.
--   Reader     process/detail/trim_str.hpp, and what boost_tcp_instruction_reader.cpp makes of what a
--              connection gives.
--   Clock      process/boost_clock.cpp: the plan of the calls, in microseconds.
--   Program    main.cpp: the dispatcher over the clock, the queue, the control functions and the main
--              block.
--   Examples   concrete runs.
--
-- Loops are structural recursion over lists, but for three on fuel: the loop over the parameters of
-- an instruction, for which the length of the text and one is enough; the loop of `run`, which ends
-- only when an instruction, a signal or an exception ends it; and the reading of the nodes of blocks,
-- for which more than the depth of the node is enough. The calls of a tree are recursion over it. The
-- state that an exception leaves behind is kept in Block and Tree, where callers go on with it, and
-- dropped in Exchange.
--
-- A block is called wired if every accordance leads to a variable that it has, and every variable
-- that it returns is a SET variable. A block is called linked with its children if it has every
-- variable that one of them uses.
--
-- Not modelled: sockets and the threads that serve them, beyond the queue; the wait for the lock of a
-- shared memory and its protocol file; the options library, character sets and signals of the
-- system, which belong to other libraries; signals that arrive inside a step; control functions that
-- libraries add; what lookups and locks tell the logger; what is printed while a task is loaded; the
-- texts of error messages of the UDP exchange and some of those of the loader.
pub mod Prelude
pub mod StdMap
pub mod Remap
pub mod Names
pub mod Result
pub mod Formula
pub mod Param
pub mod Scheduler
pub mod Exchange
pub mod Block
pub mod Callable
pub mod Tree
pub mod Command
pub mod BlockClass
pub mod Loader
pub mod Mailbox
pub mod Reader
pub mod Clock
pub mod Control
pub mod Subprogram
pub mod Instruction
pub mod Dispatcher
pub mod Program
pub mod Examples
