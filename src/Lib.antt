-- ===== src/Lib.antt =====
-- gcgrep: a code search daemon that keeps an index of trigrams over the files below a root.
--
-- The parts of the program and the files that model them. Paths are from the repository's root.
--
-- Base, Go: names that all parts share, lists and tests on native numbers, and the routines of Go's
--   bytes, strings and map types that the code uses (Go/Bytes, Go/Map). A map is an association list
--   and is visited in the order of that list.
-- Symbol: internal/symbol. Symbol/Strip is Strip, stripCLike and stripPython of strip.go: a loop
--   body is a step function that sees the byte and the two after it, and `run` is the loop.
--   Symbol/Lines is lineOf, newLineIndex and line of symbol.go. Symbol/Refs is Refs of refs.go, over
--   the stripped text and the extracted definitions. Symbol/Java is java.go: braceRange, innermost,
--   methodCandidates and extractJava, over the matches of the type pattern.
-- Index: internal/index. Index/Literal is literal.go (foldIndex, literalFindAll), Index/Matcher is
--   matcher.go (MatcherFor, FindFirst), Index/Query is query.go (ExtractLiteral), Index/Postings,
--   Index/Store and Index/Search are index.go: trigrams and posting lists, the store with Add,
--   Remove, RemovePrefix and the compaction, and Search with its candidates and its lines. Index/Lookup is
--   Defs, FileDefs, FilesContaining and LineText of index.go.
-- Shard: internal/shard. Shard/Varint is varint.go with the encodings of encoding/binary,
--   Shard/Build is the Builder of build.go and the bytes that Write lays out, Shard/Batches is
--   GroupByDirBoundary, Shard/File is Load of shard.go and the reads of one entry, Shard/Query the
--   queries (HasTrigrams, Candidates, FileDefs), Shard/Mapping the counted Mmap and Munmap, and
--   Shard/Engine the choice of shards, the dirty list and the planning of rebuild in engine.go.
--   Shard/Engine/Verify and Shard/Engine/Scan are matchContent and verifyFile, and Shard/Engine/Search is
--   Search over the shards and the dirty files; Shard/Engine/Lookup is Defs, FileDefs and FilesContaining.
-- Daemon: internal/daemon. Daemon/Stream is stream.go, Daemon/Utf16 is utf16.go beside the decoder of
--   internal/shard/engine.go. Daemon/RootStore is store.go for an index in memory: indexFile, toStream,
--   removeTracked, indexParallel and applyChange, with children for reconcile (Reconcile), save and
--   loadPersisted (Persist) and the compare-and-swap of reserveBytes among workers (Reserve); Accounts and
--   Changes are about totalBytes, Routes about where a file is put. Daemon/Server is the filters of a
--   request and the map of stores of server.go.
-- Watch: internal/watch/watch.go, the event loop; each iteration is a function of what it receives.
-- Ignore: internal/ignore, the patterns of ignore.go and the tree of gitignore.go.
-- Tests: the properties at concrete inputs.
--
-- How the parts interact. Add of the store takes the definitions that internal/symbol extracts: the
-- extraction is an argument of the model. Search takes candidates from the posting lists and locations
-- from literalFindAll or from the regexp package, which is a parameter (the record Regexps). The shard
-- builder uses the same trigrams and definitions, and a shard gives them back from its bytes. The store of a
-- root drives the index and the stream manifest, and takes what the file system answers as an argument;
-- the watcher's batches say which paths it looks at.
--
-- Numbers. Bytes and offsets are native numbers. An int64 is kept as its 64-bit pattern. A limit that
-- is not positive is 0. A read that panics in the program gives none.
--
-- Fuel. Loops that do not follow a list run on fuel, and each turn moves on by a byte or halves a
-- range: the fuel is the number of bytes left, or the width of the range, which is stated at each of
-- them. put_uvarint has room for nine continued bytes, as many as 64 bits need.
--
-- Locks. An operation that holds its lock for its whole run is one step; what goroutines interleave are
-- whole operations. The reservation of bytes takes no lock: Daemon/RootStore/Reserve takes its atomic operations
-- one by one.
--
-- Not modelled: the command line, the sockets and the events of the protocol, the handlers that send
-- them and the barrier of the daemon, the walk of the file system and the registration of watches, the
-- JSON manifest, system calls, the regexp package and the parser of Go; of engine.go, the reading and
-- writing of files in FullBuild and rebuild; of store.go, the starting of the watcher and the timers.
pub mod Base
pub mod Go
pub mod Symbol
pub mod Index
pub mod Shard
pub mod Daemon
pub mod Watch
pub mod Ignore
pub mod Tests
