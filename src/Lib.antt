-- ===== src/Lib.antt =====
-- Verification of go-git, an implementation of Git in Go.
--
-- Modelled are the parts that carry bytes and small state between the others: the packet lines of the wire
-- protocol and the side-band on top of them, the deltas of pack files, the caches that the storages keep
-- objects in, refspecs, the options of configuration files, ignore patterns, capabilities, file modes,
-- references with their iterators and resolution, the walks over histories, and the storages in memory and
-- in a transaction. The packet layer reads and writes through io.Reader and io.Writer; the side-band uses
-- the packet layer; a transaction runs over any two storages that keep the laws of Refs, and the storage in
-- memory is one; the ignore patterns split their text as reference names do; the walks over histories are
-- iterators of Refs; the other parts stand alone.
--
-- Base          shared names: Boolean tests and if, lists measured by native numbers, byte strings, bit
--               operations as arithmetic, well-founded <.
-- Stream        io.Reader as the bytes still to be read and the error behind them, io.Writer as the bytes
--               written and the room that is left; the errors of the packet layer.
-- Pktline       plumbing/format/pktline: Length (length.go, sizes of common.go), Write (Write and its
--               variants, WriteError), Read (Read, ReadLine, PeekLine), Scanner (scanner.go). RoundTrip, Lines,
--               Frame and Scanner/Packets hold what they promise. bytes.TrimSpace is the parameter trim_space.
-- Sideband      plumbing/protocol/packp/sideband: Mux (muxer.go), Demux (demux.go), with RoundTrip and Limits.
-- Delta         plumbing/format/packfile: Size (deltaEncodeSize, decodeLEB128), Copy (encodeCopyOperation,
--               decodeOffset, decodeSize), Diff (diffDelta, encodeInsertOperation), Patch (PatchDelta and
--               patchDelta), Hash and Index (delta_index.go: hashBlock; the scanner, the index, findMatch), whose
--               children Scan, Entries, Ready and Find show that no index is out of range and what is
--               found; Ops has the operations of a delta as data, RoundTrip and CopyRoundTrip the proofs.
-- Cache         plumbing/cache: Lru has Put, Get and Clear of ObjectLRU and BufferLRU, Lists and Evict the
--               lemmas on lists with distinct keys and on the eviction loop, Refine the abstract view.
-- RefSpec       config/refspec.go: Spec has the methods, Parts what they do on a refspec by parts, Valid the parts of
--               the refspecs that Validate accepts, Reverse what Reverse does.
-- GitConfig     plumbing/format/config: Options (option.go), Sections (section.go), Config (common.go), with
--               Laws and Writes. strings.EqualFold is a parameter that is an equivalence.
-- Ignore        plumbing/format/gitignore: patterns and matchers (pattern.go, matcher.go), with Laws.
--               filepath.Match is a parameter.
-- Capability    plumbing/protocol/packp/capability: the list of capabilities (list.go) with the tables of
--               capability.go, and Laws.
-- FileMode      plumbing/filemode/filemode.go: the modes of tree entries; os.FileMode is a parameter with the
--               laws of its documented bits.
-- Varint        utils/binary: ReadVariableWidthInt, WriteVariableWidthInt, ReadUntil, IsBinary.
-- Object        plumbing/object.go: object types and their names; objects as values, with a hash function as a
--               parameter.
-- Refs          Reference (plumbing/reference.go); Iter, Filter (the iterators and ForEach loops of
--               plumbing/storer/reference.go and object.go); Storer, ObjectStorer, Cells (the interfaces of
--               plumbing/storer as records of operations with laws); Resolve (ResolveReference); CopyObjects
--               (the loop that copies objects into a storage).
-- History       plumbing/object: Graph (commits by their hashes, GetCommit, what can be reached), Worklist (what all
--               walks have in common, as a law of one Next), Bfs (commit_walker_bfs.go), Filtered
--               (commit_walker_bfs_filtered.go), Pre, Post and All (commit_walker.go), Parents; Ancestor (IsAncestor,
--               ancestorsIndex) and MergeBase (Independents, MergeBase) of merge_base.go, whose children follow one walk
--               of Independents (Walk, Limit, Ancestry), its rounds (Independent, Rounds, Sorted) and MergeBase (Best);
--               sort.Slice is a parameter, and Ranked has the test that a history has no cycles.
-- Storage       Storer (storage/storer.go); Memory (storage/memory/storage.go): References, Objects with Laws and
--               Transaction, Cells (shallow commits, index, configuration), Whole; Transactional
--               (storage/transactional): References with Commit, Replay and Checks, Objects, Cells, Whole
--               (storage.go). The index and config storages are one code over the type of the value.
-- Tests         the theorems at concrete inputs.
--
-- State is passed explicitly, a mutated argument is returned. A panic of the code is a value: `panic` and
-- `panicked` of the packet and the side-band results, `none` of the caches, of refspecs and of the delta
-- index. A Go uint has 64 bits and wraps. Buffers that the code reuses keep the bytes that they held before.
--
-- A Go map is an association list whose order no theorem rests on. A hash is a number; the hash function of
-- objects is a parameter, taken to have no collisions where a theorem needs it. The interfaces of storages
-- have laws for the case that no disk fails; errors of the code itself are values.
--
-- Loops run on fuel: the packs of a multiplexer and of diffDelta take a byte at least in each round, so
-- the length of the data is enough; the eviction loop drops an element in each round, so the length of the
-- list and one more is enough; a Read of the demultiplexer and a scan take a packet in each round;
-- the chains of a delta index are cut at 64 entries, so copying a chain takes at most 64 rounds; a filtered
-- iterator has a round for each value, and one more; a walk over a history marks a stored commit in each round,
-- so the number of commits and one more is enough.
--
-- Not modelled: the streaming variants of the delta reader; formatting, tracing, pools; the storage on the file
-- system, modules of a storage, the decoding of objects, walks that are ordered by time or by path, and the
-- porcelain.
pub mod Base
pub mod Stream
pub mod Pktline
pub mod Sideband
pub mod Delta
pub mod Cache
pub mod RefSpec
pub mod GitConfig
pub mod Ignore
pub mod Capability
pub mod FileMode
pub mod Varint
pub mod Object
pub mod Refs
pub mod History
pub mod Storage
pub mod Tests
