-- ===== src/Lib.antt =====
-- A model of nix-tarmac: a content-addressed store that keeps blobs in a packfile with an LMDB index
-- (src/pack_cas.cpp), the file trees on top of it that archives are ingested into and NARs are
-- written from (src/tree.cpp, src/tree.hpp), and the accessors and the store that a Nix plugin offers
-- over them (plugin/pack_accessor.hh, plugin/store.cc, plugin/tarmac.cc, plugin/ctx.hh).
--
-- How the parts interact. An ingest (Ingest) reads an archive in one thread (Archive) and applies
-- its members in another, through a bounded queue (ItemQueue, ItemQueue/Pipeline). Each member's
-- path is taken apart (Paths) and added to a tree in memory (MemTree); the directories are written,
-- the deepest first (MemTree/Flush), as tree objects (TreeObject), which like file contents are
-- blobs of the packfile store (Pack). A NAR is written by walking the tree objects (Nar) and hashed
-- on the way (Nar/Sha256); a path is looked up in them by Walker. Roots carry time stamps (Stamp,
-- Roots). The collection of garbage (Gc) expires them, marks what the others reach (Live) and
-- compacts the packfile to that (Pack/Compact). The plugin keeps a record of each store path in the
-- meta table and serves its files through accessors (Plugin). Ids are shown in hexadecimal (Hex).
--
-- Files and code:
--   Base             lists, bytes, little-endian numbers, results, and code that changes a state and
--                    may throw (Exec: `Outcome` keeps the state at the throw, `Ends` says what holds
--                    at either end)
--   Hex              `to_hex`, `from_hex`
--   Stamp            `be64`, `rbe64`, `is_timestamp`
--   TreeObject       `TreeEntry`, `putTree` (`encode_tree`), `readTree` (`decode_tree`); a read past
--                    the end is `undefined`, and InBounds is about the reads of a round
--   Paths            `split_path`
--   ItemQueue        `TarItem`, `ItemQueue`; a call that waits is `none`
--   ItemQueue/Pipeline   the threads of `ingest_archive`: a relation `Step` for what either may do
--                    next and `Reach` for the runs
--   MemTree          `MemNode`, `lookup_node`, `add_node`; Ordered is about the order of the children
--   MemTree/Flush    `flush_tree`; Prefix and Slots are about paths and names, Listing and Order
--                    about the list of directories, Pruned about the tree between two rounds,
--                    Correct about the whole, Program about the whole with `putTree`
--   Archive          `read_regular`, `read_item`, `read_items`; libarchive is a record of operations
--   Ingest           `apply_item`, `ingest_archive`, `ingest_tarball_file`
--   Pack/File        the bytes of one file; `pwrite_all`, `write_all`, `pread_all`
--   Pack/Index, Pack/Blob   `IndexEntry`, `decode_entry`, `decompress`, what `put` stores
--   Pack/Platform    LMDB, LZ4 and BLAKE3 as records of operations and the laws relied on
--   Pack/State       the fields of `PackCas::Impl` and the helpers on them up to `locate`
--   Pack/Batch       `lock_writer`, `begin_batch`, `commit_batch`, `abort_batch`, `sync`;
--                    Commit and Abort are about the ends of a batch
--   Pack/Blobs       `put`, `get`, `get_view`, `size`, `has`, `pack_size`
--   Pack/Meta        `WriteTxn`, `check_format`, `write_gen` and the `meta_` operations
--   Pack/Compact     `compact`; Copy and Loop are about the copying of the live blobs, Index and
--                    Correct about the new index, Rewrite about the two together
--   Pack/Open        `open`, `open_once`, `cleanup_orphans`; Steps, Maps and Opens are about what
--                    they leave
--   Nar              `nar_str`, `nar_leaf`, `nar_directory`, `nar_dump`
--   Nar/Sha256       `nar_sha256`; OpenSSL's digest is a record of operations
--   Live             `mark_live`
--   Walker           `TreeWalker`; Search is about its search in a directory
--   Roots            `registerRoot`, `touchRoot`, `flush_touches`, `sync` of `TreeStore`, and its
--                    objects
--   Gc               `expire_roots`, `maybeGc`, `roots_info`; Reading is about the trees that
--                    `readTree` finds in an index, Walks about marking through them, Keeps about
--                    marking and compaction together
--   Plugin/Accessor, Plugin/Blob   `PackAccessor`, `BlobAccessor`
--   Plugin/Record    `PathRecord`; nlohmann::json is a record of operations and laws
--   Plugin/Nix       what the store calls of Nix
--   Plugin/Store     `TarmacStore` and `ingest`
--   Plugin/StoreView `StoreViewAccessor`
--   Plugin/Tarball   of `FastTarballInputScheme` `inputFromURL`, `inputFromAttrs`, `toURL`, `isLocked`
--                    and `getFingerprint`; Nix's URLs and hashes are a record of operations
--   Plugin/Ctx       of `Ctx` the constructor and `openHealed`; Poison is about a poisoned cache
-- A module Runs has concrete runs of the part that it stands below.
--
-- Conventions. A byte is a number, below 256 where a statement says so; 64-bit additions that may
-- wrap are written with `% 2 ^ 64`. Calls of the system and of LMDB may fail: `Kernel` says which,
-- by the number of the call. A transaction holds a copy of the databases, `freed` once LMDB has
-- freed it. `tid` is the calling thread and `now` what the clock says. Exceptions are named by their
-- class, without a message. A path of Nix is the list of its components, a store path its base name.
--
-- Fuel. `decode_tree`, `split_path`, `pwrite_all` and `pread_all` start their loops with the length
-- of their input, of which every round takes one byte at least. `locate` and `lock_writer` have the
-- bounds of the source (8 attempts; 12000 polls, which are ten minutes). `nar_dump` takes its fuel
-- as an argument, and `rounds` of Nar/Recursive is enough of it. `mark_live` takes it too: one
-- round for each id that a tree may refer to, and one for the root, is enough (Live/Fuel).
-- `flush_tree` lists the directories with one round for each of them and one more, which is enough
-- (MemTree/Flush/Order). `read_items` takes its fuel as arguments: a round for each member and one
-- more, and for a file one for each piece in which it is read and one more (Archive/Members).
--
-- Not modelled: of plugin/tarmac.cc the download and the accessor it opens, of plugin/ctx.hh the
-- table of the contexts of a process and the writing of the poison file, the registration of the
-- plugin, and of plugin/store.cc the settings, the registration and the signatures.
pub mod Base
pub mod Hex
pub mod Stamp
pub mod TreeObject
pub mod Paths
pub mod ItemQueue
pub mod Pack
pub mod Nar
pub mod MemTree
pub mod Archive
pub mod Ingest
pub mod Live
pub mod Walker
pub mod Roots
pub mod Gc
pub mod Plugin
