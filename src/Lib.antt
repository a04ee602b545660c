-- ===== src/Lib.antt =====
-- Verification of the rocksutil library: the write-ahead log, its checksums and encodings, the LRU
-- cache, and the small data structures below them.
--
-- The parts and how they interact. A log writer (rutil/log_writer.cc) splits records into fragments
-- over blocks of 32768 bytes and puts a header before each, with a masked CRC-32C
-- (rutil/crc32c.cc, include/rocksutil/crc32c.h) and little-endian integers (rutil/coding.cc,
-- include/rocksutil/coding.h). A log reader (rutil/log_reader.cc) gets the blocks back, checks the
-- headers, joins the fragments and reports what it drops, as a status (include/rocksutil/status.h).
-- Bytes travel as slices (include/rocksutil/slice.h).
--
-- Base holds what the modules share: tests on numbers, lists over the native numbers, bytes and
-- words, and the laws of the bit operations.
--
-- Coding models include/rocksutil/coding.h and rutil/coding.cc. A string or a slice is the list of its
-- bytes, each below 256. put_varint32 is PutVarint32, and likewise for the others. A pointer range
-- [p, limit) is the list of the bytes in it, and a null result is `none`. The loops that shift a
-- value go by recursion on it; the loop of GetVarint32Ptr goes on the input.
--
-- Crc32c models rutil/crc32c.cc: step1 is STEP1, slow_crc32 is Slow_CRC32, extend_impl is ExtendImpl
-- with the word routine as its parameter and the buffer's address as an argument. The four tables are
-- those of the source, entry by entry. The instruction that Fast_CRC32 uses where the processor has it
-- is not modelled; extend is the choice of Choose_Extend without it.
--
-- Status models the codes and the constructors that the log uses, and Status.Text models ToString of
-- rutil/status.cc, where `none` stands for the append of a null pointer.
--
-- Log models rutil/log_format.h, rutil/log_writer.cc and rutil/log_reader.cc. Log.Layout says what
-- the format is, as a relation between a record and its bytes that names neither side. In Log.Writer,
-- add_record is AddRecord, add_fragment a round of its loop and emit_physical_record is
-- EmitPhysicalRecord; the destination is an interface of Append and Flush. In Log.Reader,
-- read_physical_record is ReadPhysicalRecord, read_round a round of its loop and read_more is
-- ReadMore; Log.Reader.Record has ReadRecord, with a round of its loop in record_round and the switch
-- in dispatch, and UnmarkEOF. The file is an interface of Read and Skip. The reporter is the list of
-- what it was told.
--
-- Loops without a bound in the source run on fuel. AddRecord gets two rounds more than the record has
-- bytes: each round takes a byte, but for a first one with room for a header alone. ReadPhysicalRecord
-- gets two rounds: once it has read it parses, or has met the end. ReadRecord takes the number of its
-- rounds as an argument, since it need not return; on a log that was written, one round more than
-- there are bytes is enough. GetSliceUntil gets a round for each byte and one; its 32-bit index wraps on
-- a longer slice than 2 ^ 32 bytes, where it need not return. The loop of the writer in
-- examples/wal_example.cc gets the number of rounds until it is told to exit.
--
-- Random models the 31-bit generator of rutil/random.h, Slice the comparisons of
-- include/rocksutil/slice.h, and AlignedBuffer rutil/aligned_buffer.h, whose memory is the list of
-- the bytes from the aligned start on.
--
-- Cache models rutil/lru_cache.h and rutil/lru_cache.cc. Cache.Table is LRUHandleTable: find, insert
-- and remove are Lookup, Insert and Remove, and resize is Resize, whose doubling loop gets 28 rounds,
-- after which the 32-bit length would be 0. Cache.Shard has the state of LRUCacheShard and its private
-- operations, Cache.Shard.Operations the public ones, each a function on the state since each holds
-- the mutex. The circular list is two lists, cut where lru_low_pri_ points. The fields of handles that
-- change are in a memory by address; a field of the state tells that an assertion failed, another logs
-- what was freed. Cache.Shard.Invariant says when a shard is in order: the lists, the memory, the
-- table and the sums agree, no assertion failed, and the list is empty if the capacity is exceeded.
-- Doubles are a parameter: product, comparisons, and the test of NewLRUCache. `Insert` takes the
-- handle filled in, at the address that the allocation gave, and a Boolean for a `handle` that is not
-- null; Erase tests last_reference once for its three uses.
--
-- Sizes and offsets that the source keeps in 64 bits wrap in the reader, where it subtracts, and in
-- the cache; the writer's offset in a block is at most 32768. Lengths that the source cuts to 32 bits are cut here.
--
-- Not modelled: the sharded cache, the destructors of the caches and ApplyToAllCacheEntries, the
-- buffered files, the thread pool, thread-local storage, the loggers and
-- the environment, which are for the most part system calls and locks.
pub mod Base
pub mod Coding
pub mod Crc32c
pub mod Status
pub mod Log
pub mod Random
pub mod Slice
pub mod AlignedBuffer
pub mod Cache
