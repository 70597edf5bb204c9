-- ===== src/Lib.antt =====
-- Verification of ContextFS, a file system for agents whose state is versioned in branches of
-- commits over a content-addressed object store.
--
-- The program's core: every open branch has a working tree, a map from absolute paths to entries
-- (kind, object id, mode). The file system callbacks look up, insert, remove and rename in it. A
-- checkpoint writes it as tree objects and a commit; a rollback reads them back and publishes them
-- as the base of the working tree; a merge combines the working trees of three commits. Names of
-- branches and records of the runtime travel as text.
--
-- The files and the code they model:
-- - Base, OrdMap: shared notation, total orders as instances, and finite maps as association lists
--   in ascending order of their keys, which is how `std::map` is read everywhere.
-- - WorkingTree: src/cas/working_tree.h and working_tree.cpp, class WorkingTree. The record has the
--   four fields of the class; base_ is an option, a null pointer being `none`. The functions have
--   the names of the methods (insert is insert_entry). A method holds the mutex throughout, so a
--   call is one step. The copies that clone and fold_into_base share with running readers are
--   values here, since the code never changes a base after publishing it.
-- - BranchMerge: src/cas/branch_merge.cpp, merge_trees and its helpers. The loop body is split:
--   merge_state decides one path, merge_paths is the loop, finish_merge is all that follows it.
--   A missing entry is `none`, as std::nullopt is. ThreeWay says what a merge means for one path.
-- - Codec, Commit, TreeSerialize: src/cas/commit.cpp and the entries of src/cas/tree_serialize.cpp.
--   A buffer is a list of bytes, and integers are little-endian, as memcpy leaves them on the
--   supported machines. Each memcpy from a buffer is a `grab`, which says `out_of_bounds` when it
--   passes the end, so that staying inside the buffer is a theorem and no assumption. The casts to
--   16 and 32 bits and the 32-bit product in the size check of a commit are written out.
-- - Text: the object ids of src/cas/hash.h, the percent encoding of src/cas/runtime_state.cpp and
--   the names of src/cas/branch_name.cpp. Characters are bytes.
-- - WriteBuffer: src/cas/write_buffer.cpp, the dirty ranges of an open file. A range is a start and
--   its bytes, and the overlay is a map from starts. Iterators into the map are the lists before
--   and behind them. Truncate and Regrow have truncate, Read and
--   ReadWrite the reads, Materialize what is stored in the end, and History the
--   calls on one file in any order.
-- - Record: the lines `key=value` that the records of src/cas/runtime_state.cpp and
--   src/cas/agent_state.cpp share, with their decimal integers. Reading is in Result, whose errors
--   are the texts that `error` gets.
-- - RuntimeState, AgentState: the two kinds of records in these files, field by field, and in the
--   modules named Stored how they are written to the object store and read from it.
-- - ObjectStore: src/cas/object_store.h and object_store.cpp, class ObjectStore. The directory tree
--   objects/ is a map from ids to files. What the operating system answers to the calls of one
--   operation is a record of answers. A write holds its mutex in two blocks, and what other threads
--   do between them is the argument `others`; a theorem says what it asks of them. Pending has the
--   pending set and the removal, Views the views and the cache of sizes, and Sizes the calls on one
--   store in any order.
-- - BranchRouter: src/cas/branch_router.h and branch_router.cpp, class BranchRouter, with the
--   answers of /proc, stat and the fence as arguments and the other threads as before. Coherent,
--   History and Routing are about the cache of paths and the calls that lead to it, Rounds about the
--   loop over the ancestors. The numbers of directories are a function, fixed within one call.
-- - Telemetry: src/cas/telemetry_registry.h and telemetry_registry.cpp, class TelemetryRegistry. The
--   backends are parameters: a number for the address and what the methods return.
-- - Tests: concrete runs, and the theorems at concrete inputs.
--
-- Parameters: `blake3` is the vendored hash function; a theorem that reads back what was written asks
-- that no other content has the same hash as the one in question (IsUnique). `scan` is sscanf of the
-- C library with the format %2x, of which ScansDigits asks that two hexadecimal digits are read.
--
-- Bounds: the search for a directory above a path shortens the path in each round, so the path's
-- length is the fuel (ancestor_conflict_fuel in BranchMerge.Structure), and so it is for the
-- ancestors of a cgroup (walk_fuel in BranchRouter.Rounds). Every other loop is structural. Byte
-- values are numbers; a theorem says where it needs them below 256. Counters of objects, offsets and
-- sizes in memory are not bounded. EntryKind has a constructor `unnamed` for the byte values that
-- name no kind, since reading a tree object casts any byte.
--
-- Not modelled: of src/cas/branch_merge.cpp the search for a common ancestor and the loading of
-- commits, of src/cas/tree_serialize.cpp the walks over whole trees, of src/cas/object_store.cpp the
-- directories, the temporary files and the flushing to disk, of the branch router what the fence promises; checkpoints, references, garbage
-- collection, the service of agent states, the control protocol and the supervisor; the file system
-- adapters, sockets, threads and policy backends, which are calls into the operating system; and the
-- vendored BLAKE3.
pub mod Base
pub mod OrdMap
pub mod WorkingTree
pub mod BranchMerge
pub mod Codec
pub mod Commit
pub mod TreeSerialize
pub mod Text
pub mod Tests
pub mod WriteBuffer
pub mod Record
pub mod RuntimeState
pub mod AgentState
pub mod ObjectStore
pub mod BranchRouter
pub mod Telemetry
