-- ===== src/Lib.antt =====
-- A model of the core of ReMAME, an arcade machine emulator: its time type; its memory system, from
-- the choice of address spaces and the table through which every emulated access finds its handler
-- to banks, regions and cached direct reads; the scheduling of a machine; and two containers.
--
-- Attotime: `attotime` (source/core/attotime.h and attotime.cpp), with the portable operations of
-- source/core/fastmath.h. A time is a record of two integers, cut to the 32 and 64 bits of the
-- fields wherever the C++ stores them. `add`, `sub`, `mul`, `div` are the operators `+`, `-`, `*=`
-- and `/=`. The children compare each with the value in attoseconds: Sum, Product, Quotient, Order,
-- Ticks, Units, Assign. Floating-point conversions and printing are left out.
--
-- AddressTable: `address_table` (source/emucore/memory/emumem.cpp). `m_table` is a function from
-- an index to an entry with the vector's size beside it; the counts of references are integers;
-- fatal errors are values of `Fatal`. AddressTable has the state and the lookups,
-- AddressTable/Subtable the functions `subtable_*`, and AddressTable/Populate `populate_range`, each
-- loop a structural recursion on its rounds. `subtable_alloc` loops until a subtable is free, here on
-- fuel: two rounds are enough, because a merge that merges anything frees a subtable. The
-- invariant is `IsSound` of AddressTable/Core; Frame, Sound, Uses, Merge, MergeLoop, Alloc, Link,
-- Open, Given, Fill, Middle and Range carry it through the operations, Lookups states what readers
-- see, and History what a sequence of calls adds up to. Small tables, mirrors and the delegates behind a
-- handler are not modelled; neither are assertions, which the release build drops.
--
-- Fifo: the ring buffer `util::fifo` of source/core/coretmpl.h, with an array as a function and iterators
-- as indices; Fifo/Contents reads it as a list.
--
-- Machine: the part of `running_machine` (source/core/machine.cpp) that schedules exits, resets and
-- saved states, pauses the machine and calls notifiers. Requests carry times of Attotime, and
-- their deadline is compared by its operators. What the scheduler, the options, the file system and the save
-- manager answer is the record `Host`, and so is the file name that `compose_saveload_filename`
-- makes; what is done to them is a trace of events. Machine/SaveLoad, Pause, Notifiers and Rand
-- have the theorems.
--
-- SimpleList: `simple_list` and `fixed_allocator` of source/core/coretmpl.h. Objects are addresses, their
-- `m_next` fields one function, and loops over a list take fuel; SimpleList/Chain reads the fields
-- as a list, and shows how much fuel `reset` needs.
--
-- MemoryBank: `memory_bank` (source/emucore/memory/memory_bank.h and emumem.cpp), a pointer that address
-- spaces share and the entries it switches between. A pointer is a number; the global array of
-- base pointers and the spaces told of a change are the record `Memory`. Entries and References
-- have the theorems.
--
-- AddressSpaces: `address_space_config` (source/emucore/memory/address_space_config.h) and the choice
-- of an address space type in `memory_manager::allocate` (memory_manager.cpp). A space is its type,
-- one of the `typedef`s of address_space_specific.h. Switch has the cases of a configuration,
-- Allocate the loop over a device's, Large the size and Units the conversions.
--
-- DirectRead: `direct_read_data` (source/emucore/memory/direct_read_data.h and emumem.cpp), the cache
-- that lets a processor read a bank without a lookup. It finds its ranges by `derive_range` of the
-- address table, in AddressTable/Derive, whose loops over level 1 take fuel: 2^18 rounds, as many as
-- level 1 has entries, are enough (AddressTable/Scan, Block and Derived). DirectRead/Ranges has the
-- cached ranges and what becomes of them when the table changes, Window and Reads what a read gives.
--
-- HandlerEntry: the subunits of a `handler_entry` (source/emucore/memory/emumem.cpp), by which narrow
-- handlers share a wide data bus; HandlerEntry/Subunits has the function that adds them. The walk over
-- a mask takes 65 rounds at most, one for each of 64 bits and the last. HandlerEntry/Stubs has
-- the stubs that read and write through subunits, with delegates as parameters. Conflicts, Slots and
-- Gathered have the theorems, the last on reads; Places has the unit of a subunit, Counted the count
-- of units. Assertions are not modelled, but stand as hypotheses
-- where a theorem needs them.
--
-- MemoryRegion: `memory_region` (source/emucore/memory/memory_region.h) and the functions `region_*` of
-- the memory manager (memory_manager.cpp), on a list in the order in which the unordered map is walked.
--
-- LruCacheMap: `lru_cache_map` (source/core/coretmpl.h). LruCacheMap/Set has the set of its keys, with
-- the order of keys as an interface; Spec the list it promises to be, and Refines the proof. The loop
-- of `make_space` runs `m_size` times at most, as it takes an element each time.
--
-- AddressMap: `address_map` and `address_map_entry` (source/emucore/memory/address_map.h and
-- address_map.cpp). AddressMap/Setters has what drivers call and the constructors of maps, Import has
-- `import_submaps`, whose fuel is the depth to which maps refer to maps: a hypothesis says that it is
-- enough, as a map that refers to itself has no end. Merged, Flat, Window and Lanes have what becomes
-- of the entries, Masks and Made the theorems on setters and constructors. The maps of drivers and the
-- search for a device are parameters. `map_validity_check` is not modelled.
--
-- SpaceAccess: `read_direct` and, in SpaceAccess/Write, `write_direct` of `address_space_specific`
-- (source/emucore/memory/address_space_specific.h), by which an access of any width at any address
-- becomes accesses of native words. SpaceAccess/Native has `read_native` and `write_native` under a mask:
-- the entry of the address in the table, then the memory at the pointer of its handler, or a delegate,
-- which is a parameter. Memory is a function from a pointer to a byte, and the host is little-endian.
-- Ram has what native accesses of memory are, Partial a result as it grows, Little each way of reading
-- in a little-endian space, and Direct the
-- function; Stored, Put and Written have the same for writes. Big-endian accesses are modelled, without
-- a theorem.
--
-- How the parts meet: DirectRead asks AddressTable for entries and ranges, and takes the base pointers
-- that MemoryBank sets; what a bank tells its spaces is a forced update there. HandlerEntry is the
-- handler behind an entry of the table, of which AddressTable itself keeps what it clears. Machine
-- keeps its deadlines in Attotime. Base has what they share: C words, integers, lists, binary digits,
-- and results with their errors.
--
-- Not modelled: the mirrored mapping of `address_table`, the native accesses without a mask, the
-- watchpoints' own handlers, devices and their start, delegates (they depend on the layout of the compiler), and what logs, prints or calls code outside the repository.
pub mod Base
pub mod AddressMap
pub mod AddressSpaces
pub mod AddressTable
pub mod Attotime
pub mod DirectRead
pub mod Fifo
pub mod HandlerEntry
pub mod LruCacheMap
pub mod Machine
pub mod MemoryBank
pub mod MemoryRegion
pub mod SimpleList
pub mod SpaceAccess
