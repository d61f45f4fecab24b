-- ===== src/Lib.antt =====
-- The C runtime of Clojure RT (backend/runtime).
--
-- The runtime is the library that compiled Clojure code calls: values of 64 bits that hold a
-- number, a keyword or a pointer, and persistent collections whose objects are counted. An
-- operation may write an object in place when it is the only owner (`Ptr_isReusable`) or when a
-- transient owns it.
--
-- The files, by the code that they model:
--   Base        lists, words of 64 bits and `int32_t`, families of threads,
--               and `Outcome`: what a function returns, throws (backend/runtime/Exceptions.h), or
--               leaves undefined
--   Value       backend/runtime/RTValue.h: the tags, boxing and unboxing; the types of
--               backend/runtime/ObjectProto.h and `getType` of backend/runtime/Object.h.
--               Value/Boxing has the theorems.
--   Vector      backend/runtime/PersistentVector.c, PersistentVectorNode.c and Transient.c
--     Node      nodes as trees; replacePath, pushTail and popTail
--     Ops       the vector record; conj, assoc, pop, createMany, nth
--     Walk      the descent of nth, nth_default and nthBlock
--     Access    valAt, containsKey, entryAt, dynamic_nth, peek
--     Transient transient, persistent!, withMeta
--     Fold      reduce and contains
--     Sharing   promoteToShared of vectors and nodes
--     Iterator  backend/runtime/PersistentVectorIterator.c and PersistentVectorChunkedSeq.c
--     Blocks, Visit  the leaf of an index, and the order in which an iterator goes
--     ReverseSeq, Chunk  backend/runtime/PersistentVectorReverseSeq.c and ArrayChunk.c
--     Radix, Shape, Replace, Push, Pop, Valid: the digits of an index, the shape of a trie, what the
--               node operations do to it, and the invariant of a vector
--     Refine, Update, Shrink, Keys: the operations against the list of elements
--     Aliasing  which objects are written in place
--   ArrayMap    backend/runtime/PersistentArrayMap.c
--     Ops       the operations, with `equals` and `hash` of values as parameters
--     Lookup, Entries: searching the arrays and changing one entry
--     Refine, Compare: the operations against partial functions, and maps from argument lists
--   PersistentList  backend/runtime/PersistentList.c
--     Ops       a store of cells and the operations on it, with the in-place reversal of createMany
--     Holds     the list that a cell begins, and the operations against it
--     Reverse   what createMany returns
--   ConcurrentMap  backend/runtime/ConcurrentHashMap.c
--     Ops       a table as a family of cells; insertOrFind with its links, and the operations
--     Slots, Links, Stores: the masks, the chains of the buckets, and what a store changes
--     Search, Turn, Follow, Chains, Insert: the loops of insertOrFind
--     Valid, Writes, Values, Read: the invariant of a table, and the values that it holds
--     Refine, Put, Remove: the operations against the values of the keys
--     Ends, Fresh: when insertOrFind ends, and a new table
--   Counts      the reference count of backend/runtime/Object.h
--     System    the threads on one object, as steps in any order
--     Keep, Preserve, Safety: the invariant of the count, that each step keeps it, what follows
--   Ebr         backend/runtime/Ebr.c
--     System    the threads and the reclaimer, as steps in any order
--     Frame, Turn, Shared, Moves: the invariant, and that each step of a thread keeps it
--     Safety    that the reclaimer keeps it, too
--     Run       the reclaimer's function as one run
--     Progress, Force: what repeated runs come to
--     Readers   one run and the values that threads hold
--   Hash        backend/runtime/Hash.h, and `hash` and `equals` of backend/runtime/Object.h
--     Digits    exclusive or, digit by digit
--     Mix       avalanche and deavalanche
--     Dispatch  the switches on the type, with the functions of the types as a parameter
--   Vars        backend/runtime/Var.c and ExecutionContext.c
--     Ops       variables, contexts as array maps, deref, set and bind
--     Bindings, Maps: what a variable stands for in a context
--   Functions   backend/runtime/Function.c
--     Ops       a function as a list of methods; the choice of a method
--     Choice, Arguments: which method answers a call, and the list of the arguments that are left
--   Keywords    backend/runtime/Keyword.c
--     Ops       Keyword_create on two concurrent maps
--     Again     interning a string twice
--   Strings     backend/runtime/String.c
--     Ops       flat and compound strings, the hash, concat, compactify, the iterator, equals
--     Iterate   an iterator against the bytes that it has before it
--     Holds, Compare: strings against their texts
--   Tests       runs at concrete values
--
-- How state corresponds. A vector is a record with the fields of the struct. A node is the tree
-- of objects that is reached from it, and an array is the list of the slots in use, so a node's
-- `count` is a length. Each object has an address: an object that an operation writes in place
-- keeps its address, and one that it allocates has the address 0. The answers of `Ptr_isReusable`
-- are a parameter `sole`, a function of the address. In the collections, retaining and releasing
-- have no counterpart. What an operation writes to an object that others share is not seen
-- through the others.
--
-- A list is an address in a store of cells, since createMany writes the cells that it has made
-- and the shared empty list.
--
-- Threads. Where threads meet, the state is what they share and, for each, where it stands with
-- the variables that it has loaded; a step is one load, store, or read-modify-write, by any
-- thread. The steps are in one order: the memory orders of C are not modelled, and the barrier
-- that Ebr.c asks of the operating system is what its plain stores need to be seen in that order.
-- In Ebr the fields `since`, `holds`, `status` and `advanced`, and in Counts the field `refs`,
-- record what happened and are read by no step of the code. A reader holds what it read until its
-- section ends or is flushed, a value is retired once it is out of shared memory, and only shared
-- objects go from thread to thread: that is what the callers of these files do. A value of Ebr is
-- one reference to an object, the one that a slot of shared memory owns; an object that several
-- slots get, or one slot again, has a reference and so a value for each, and the sweep drops one
-- reference for each that was retired.
--
-- The concurrent map is modelled one operation at a time: no other thread writes between a load
-- and the exchange that follows it, and a loop that waits for another thread has no result. The
-- cells are a function of the slot, cells past the array being empty, and an index is masked by
-- the remainder by the size.
--
-- Bounds and fuel. The epoch wraps at 2 ^ 32; the model counts the advances. Words wrap at 2 ^
-- 64, and the count of a list is an `int32_t`. A valid vector has fewer than 2 ^ 64 elements, so
-- its shift is far below the wrap. The descent for shifts above 30 runs on fuel, the shift plus
-- one, since each turn lowers the shift. The loops over the cells of a list run on fuel, the
-- number of cells in the store plus one, since a cell's rest is older than the cell. The loop of
-- `Ebr_force_reclaim` runs on fuel, its turns. The loops of the
-- concurrent map along a chain run on fuel, the length of the chain plus one. All other loops are recursion on the array or on the
-- tree.
--
-- Not modelled: Hash.h for 32 bits; freeing the children of an object; starting and stopping the
-- reclaimer, and when it is woken; steps of several threads in one concurrent map; the search and
-- replacement in strings, namespaces, symbols and the numeric tower, which have no model yet;
-- printing. `equals`, `hash` and `promoteToShared` of a value dispatch on its type over all of these, so they are parameters,
-- and what the maps ask of `equals` is that it is an equivalence; the concurrent map asks of `hash`
-- that equal keys have the same one. The call of a method of a
-- function in `reduce`, and which function a value is, are parameters, too.
pub mod Base
pub mod Value
pub mod Vector
pub mod ArrayMap
pub mod PersistentList
pub mod ConcurrentMap
pub mod Counts
pub mod Ebr
pub mod Functions
pub mod Hash
pub mod Keywords
pub mod Strings
pub mod Tests
pub mod Vars
