-- ===== src/Lib.antt =====
-- LazyDB: a key-value database on append-only log files, for strings, lists, hashes, sets and
-- sorted sets, with transactions and the merging of old log files.
--
-- A write encodes an entry, appends it to the active log file of its value type and records its
-- position in an index; a read goes from the index to the log file. When the active file is full
-- it is archived and a new one is opened. A discard record counts, for each log file, the bytes
-- of entries that were replaced or deleted; old values reach it through a channel.
--
-- Files and what they model, by path from the repository's root:
--   Prelude: lists, slices, integers, results, and the state monad of the methods.
--   Std: what the program uses of Go's library (binary.Varint and LittleEndian, crc32, os.File,
--     maps, sort, strconv, the clock), as definitions by the documentation, and the interfaces of
--     the skip list and of float64.
--   Io: iocontroller/fileio.go and iocontroller/mmap.go, over the bytes of a file.
--   Logfile, Logfile/Entry: logfile/log_file.go and logfile/log_entry.go; Codec, Header,
--     ReadBack, Sizes and Limits have their theorems.
--   Ds/ConcurrentMap: ds/concurrent_map.go. Ds/Art: ds/adaptive_radix_tree.go. Util: util/hash.go.
--   Db/Discard: discard.go. Db/Store: the log files of db.go (getActiveLogFile, writeLogEntry,
--     readLogEntry). Db/Recovery: buildLogFiles of db.go and the index building of index.go.
--   Db/Keys: encodeKey and decodeKey of db.go. Db/Index: getValue and updateIndexTree of index.go,
--     and sendDiscard of db.go.
--   Db/Str, Db/StrValues: str.go. Db/Trees, Db/Hash: hash.go. Db/Lists: list.go. Db/Sets: set.go.
--   Db/Nodes, Db/ZSets: zset.go, with ByteToFloat64 and Float64ToByte of util/conv.go and Min of
--     util/math.go. Db/Tx: tx.go, tx_str.go and tx_set.go. Db/Merge: Merge and mergeStr, mergeHash,
--     mergeSet, mergeZSet and mergeList of db.go.
--   Tests: concrete inputs.
--
-- State: `LogSet` has the contents of the files of one value type by fid, the active file, the
-- archived files in a sharded map, the fids and the discard record. `StrDb` is an index tree with
-- such a set, `TreeDb` a tree for each key with such a set, `ZDb` the same with a skip list for
-- each key and a flag for a mutex that was left locked, `TxDb` all of them with the lock of the
-- transactions. A method is a function from a state to a result and the new state; `fatal` stands
-- for `log.Fatal`, for a panic and for a call that never returns; `Begin` returns, or waits for
-- the lock of the transactions, which counts the calls that wait and keeps new readers behind a
-- writer that waits for the old ones. The state that an error leaves is kept, so what was written
-- before it stays written.
--
-- The abstract store of the strings is a function from keys to a value with its expiry (`Spec`),
-- that of the hashes one from keys and fields, that of the sets one from keys and hashes of
-- members. `Models`, `HashModels` and `TreesModel` tie a database to them: the index has an entry
-- just where the store has a value, and the entry leads to bytes of a log file that stay where
-- they are. `IsList` says which entries of a tree are a list: a meta entry with its two numbers,
-- and an entry for each element under the numbers between them.
--
-- A method holds the lock of its index from start to end and is one step; `Expire` and `Persist`
-- release it between a lookup and a write, and no other call comes in between here. The clock is
-- an argument of each call. The listener of the discard channel is a step of its own, so a theorem
-- on a method asks for room in the channel.
--
-- Machine integers: fids, sequence numbers and the discard words wrap at 2 ^ 32, the counter's sum
-- and the ranks of sorted sets at 2 ^ 64. File offsets stay below 2 ^ 63, since a file is bounded
-- by the configured size.
-- Fuel: the loops over the discard file get the length of the file, and read 12 bytes a round; the
-- loop that rebuilds an index gets the length of its file plus one, and an entry has five bytes at
-- least; the loop of Merge over a file gets the same.
--
-- Parameters: the radix tree of its package (`Art`, with laws that an association list meets), the
-- 128-bit hash of set members, the hash of Go's runtime in `MSetNX`, compiled patterns, the float
-- division of the discard ratio, the float scores, the skip list of gansidui/skiplist, and the
-- identifier of a transaction.
--
-- Not modelled: Open, Sync, Close and IsClosed of a database and the directory and file names that
-- they read, the system calls of the memory mapping (mmap/), the casts and the stat of util/, and
-- the rebuilding of hashes around buildHashIndex, which runs into a nil tree. The five goroutines
-- of Commit run one after the other where they share nothing; where two use one tree, or one
-- enters a first file into the map of the active files while another works, that is a data race
-- and `fatal`. The read lock that ZRank takes twice is taken once, and the counts that HDel and
-- ZRem return beside an error are left out. Recovery is modelled for strings; the theorem on it is
-- about one log file.
pub mod Prelude
pub mod Std
pub mod Io
pub mod Logfile
pub mod Ds
pub mod Util
pub mod Db
pub mod Tests
