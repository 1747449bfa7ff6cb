-- ===== src/Lib.antt =====
-- Nanograph: the B+tree and radix tree engines, version chains, the write-ahead log, shards, access control and
-- the allocation of identifiers.
--
-- Nanograph is a database made of layers: storage engines that keep ordered keys (nanograph-btree,
-- nanograph-lsm, nanograph-art), the key-value interface and its manager over shards, and, beside
-- them, the objects of a cluster with their identifiers and permissions (nanograph-core). A table is
-- cut into shards by a partitioner; a shard is kept by a storage engine; a transaction reads a key
-- through a chain of versions at its snapshot; a grant says what a user may do with which object. The
-- LSM engine writes each change to a write-ahead log (nanograph-wal) before it is applied, the log lies
-- in a file of a virtual file system (nanograph-vfs), and the manager of the stores (nanograph-kvm)
-- hands out the identifiers of objects.
--
-- Bytes are byte strings under the order of Rust's slices. Numbers are natural numbers; where the
-- code can wrap round, the remainder is written out.
--
-- BTree (nanograph-btree/src/node.rs, tree.rs) has `BTree/Leaf`, `BTree/Internal` and `BTree/Node` for
-- `LeafNode`, `InternalNode` and `BPlusTreeNode`. A method that changes its node returns the node
-- after the call, and `none` is a panic. `BTree/Search` is `binary_search_by` of the standard library
-- on a sorted slice, and `BTree/Entries` describes what a list of entries means, as a finite map.
-- `BTree/Tree` is `BPlusTree`: the record of its fields, with the hash map of nodes as a function,
-- and every method as a function from the tree before to a result and the tree after, with an error of
-- `BTreeError` and a panic as values. `BTree/Tree/Insert` has `insert` and the splits,
-- `BTree/Tree/Siblings` and `BTree/Tree/Delete` have `delete` and the rebalancing. The loop of
-- `find_leaf` and the climbs of `insert_into_parent` and `remove_from_parent` run on fuel, and running
-- out is a fault of its own; a search needs as much fuel as the leaf is deep, counted from 1.
-- `BTree/Tree/Lookup` gives searches as a function of the nodes alone; `BTree/Tree/Write`,
-- `BTree/Tree/Absorb` (with `BTree/Tree/Widen` and `BTree/Tree/Halves`) and `BTree/Tree/Grow` are about
-- what a reader sees after a write: without a split, with the split of a leaf that the parent has room
-- for, and with the split of a root that is a leaf.
--
-- Art (nanograph-art/src/node.rs, tree.rs) is the adaptive radix tree: `Art/Node` has `Node` with its
-- four kinds of inner nodes and `find_child`, `Art/Children` the growth of a node, `Art/Insert` `get` and
-- `insert`, and `Art/Remove` `remove` with the shrinking and the compression of paths. An array of fixed
-- size is a function of the index. The recursion goes down the tree on fuel; one round more than the
-- length of the key is enough, since each level takes a byte of it. `Art/Children/Grown` is about one
-- node, `Art/Insert/Seek` reads `get` as a walk over the rest of the key, and `Art/Insert/Whole` puts
-- the cases of an insertion together.
--
-- Mvcc (nanograph-btree/src/mvcc.rs) has `Mvcc/Chain` for `VersionedValue` and `VersionChain`, and
-- `Mvcc/Clock` for `TimestampManager`. `Mvcc/Snapshot` and `Mvcc/Collect` are about reads, and about
-- garbage collection.
--
-- Shard (nanograph-core/src/object/shard.rs, container.rs, table.rs, index.rs) has `Shard/Id` and
-- `Shard/Container` for the packed identifiers, `Shard/Partition` for `Partitioner` and
-- `HashFunction`, and `Shard/Range` for `KeyRange`.
--
-- Security (nanograph-core/src/object/security) has `Security/Permission` for `Permission` and
-- `Security/Scope` for `ResourceScope` and `PermissionGrant` of permission.rs, and `Security/Principal`
-- for `SecurityPrincipal` of principal.rs with the users, groups and roles that it resolves.
--
-- Util (nanograph-util/src/integrity.rs, compression.rs, encryption.rs) has the algorithms with the
-- bytes that stand for them, and integrity hashes; the hash functions are packages and a parameter,
-- `Hashes`. Vfs has `Vfs/MemoryFile` for `MemoryFile` of nanograph-vfs/src/memoryfs.rs.
--
-- Wal (nanograph-wal/src) has `Wal/Lsn` for lsn.rs and the errors, `Wal/Header` for the header of a
-- segment and `Wal/Segment` for `WriteAheadLogFile`, both of walfile.rs, `Wal/Reader` for reader.rs,
-- `Wal/Writer` for writer.rs and `Wal/Manager` for manager.rs. The log is modelled over the file in
-- memory; the package `byteorder` is a parameter, `ByteOrder`, and `Wal/Platform` has one to run the
-- log with. `Wal/Log` and the modules below it are about records that are read back: whole, cut short
-- by a crash, and after a restart.
--
-- Lsm has `Lsm/Records` for the payloads of nanograph-lsm/src/wal_record.rs and `Lsm/MemTable` for
-- `MemTable` of nanograph-lsm/src/memtable.rs. `Lsm/Recovery` is `recover_from_wal` of
-- nanograph-lsm/src/engine.rs over one segment; its loop runs on fuel, and the size of the file is
-- enough, since every entry moves the reader by 14 bytes or more. `Lsm/BlockCache` is
-- `BlockCache` of nanograph-lsm/src/cache.rs: the floating-point scores are a parameter, `Float64`, and
-- the loop that evicts runs on fuel, as much as there are entries, since each round takes one off. `Lsm/Compaction`
-- is the choice of a compaction in nanograph-lsm/src/compaction.rs, and its merge over the entries of the
-- tables; the loop of the merge has as much fuel as there are entries. `Lsm/Compaction/Order` has the order
-- of its entries, and `Lsm/Compaction/Filtered` what is kept of them. Kvm has
-- `Kvm/Allocator` for `ObjectAllocator` of nanograph-kvm/src/allocator.rs, where what consensus makes of
-- a command is an argument. A run of the allocator is a sequence of its atomic steps, in the order in
-- which they reach the counter.
--
-- Not modelled: the persistence of the tree and its statistics, which are input and output and counts;
-- locks, since each is taken and released within one access; messages of errors; metrics; compression
-- and encryption, which are calls of packages; and the other crates. The tables
-- that a compaction reads and writes are lists of entries. A log over a file that reports
-- errors is not modelled, as the file in memory reports none.
-- Of the writes to a tree, those whose splits climb beyond the parent of the leaf and those that
-- rebalance nodes are modelled, and not compared with a map yet.
pub mod Art
pub mod Prelude
pub mod Bytes
pub mod BTree
pub mod Mvcc
pub mod Shard
pub mod Security
pub mod Util
pub mod Vfs
pub mod Wal
pub mod Lsm
pub mod Kvm
