-- ===== src/Lib.antt =====
-- fio, the flexible io tester: the parts of its C code that decide which blocks a job touches and
-- keep the records of it, with the theorems that make them correct.
--
-- The program. A job (backend.c) asks io_u.c for one io_u after another; io_u.c picks a direction,
-- an offset and a length, an io engine carries the io_u out, and iolog.c, verify.c and stat.c record
-- and check what was done. Each part is modelled by the modules named here.
--
-- - Prelude, Chains, Bits: the shared names, C arrays as lists, and words of bits: a word is a native
--   number, a bit of it is `test_bit`, and `&`, `|`, `~` and masks are described bit by bit.
-- - Ffz: __ffs and ffz of lib/ffz.h, at 64 bits.
-- - FioFile: struct fio_file and fio_file_reset of file.h, and clean_map of seg_2bitsmap.c.
-- - RandMap: the random map of io_u.c (random_map_free, mark_random_map, mark_bit_map). A bit of
--   `file_map` stands for a block of rw_min_bs bytes. RandMap.Word treats one word of it,
--   RandMap.Mark and RandMap.Cut the marking of an io_u, RandMap.Again the marking for randomagain.
-- - Offset: block selection of io_u.c (last_block, get_next_free_block, get_next_rand_offset,
--   get_next_rand_block), with Offset.Next for get_next_seq_offset, get_next_block and
--   __get_next_offset. Offset.FreeBlock and Offset.Search prove the search for a clear block,
--   Offset.RandBlock the random selection, Offset.Next.Laws the offset of an io_u.
-- - Smalloc: the pool allocator of smalloc.c, that other parts use for memory shared between
--   processes. Smalloc.Word, Smalloc.Iter, Smalloc.Check and Smalloc.Blocks treat blocks_iter and its
--   callbacks, Smalloc.NextZero find_next_zero, Smalloc.Round, Smalloc.Search and Smalloc.Total the
--   search loop, Smalloc.AddPool the first state of a pool, Smalloc.Alloc, Smalloc.Heap and
--   Smalloc.RoundTrip allocation and release, Smalloc.Apart the payloads over several requests, and
--   Smalloc.Beyond the undefined shift of the search.
--   Smalloc.Pools has the array of pools (smalloc, sfree, sinit),
--   with Smalloc.Pools.Served, Smalloc.Pools.Released and Smalloc.Pools.Forgets for what a request
--   comes to. The locks and the payload are not modelled.
-- - Stat: the latency buckets of stat.c (plat_val_to_idx, plat_idx_to_val). Stat.Msb treats the
--   highest bit, Stat.Bucket the group and place of a value, Stat.Laws what the buckets promise.
-- - SegMap: the two-bit map of written segments, seg_2bitsmap.c (get_blk, test_blk, set_bit,
--   insert_seg, remove_seg), with the overlap handler as a parameter. SegMap.Cell treats the two bits
--   of a block, SegMap.Insert the loop of insert_seg, SegMap.Laws segments.
-- - Marks: the histograms of io_u.c (__io_u_mark_map to io_u_mark_latency), with Marks.Slots for the
--   slot of a value and Marks.Totals for the totals.
-- - Time: time.c (utime_since, mtime_since, usec_spin, usec_sleep). The clock is a list of readings,
--   one for each call of it.
-- - Buflen: the length of an io_u (__get_next_buflen of io_u.c). The draws are a list, one for each
--   round of its loop.
-- - Direction: the direction of an io_u (get_rw_ddir and rate_ddir of io_u.c); what completes while
--   flushing is a parameter.
-- - History: the hash table of written segments (iohist_hash.c) and overlap_divide of seg_2bitsmap.c.
--   The memory of the pieces is a function from addresses; the hash function of hash.h and malloc are
--   parameters. History.Table treats a bucket, History.Frame the map that the table stands for,
--   History.Off, History.Ops and History.Entry what an operation does to it, History.Divide and
--   History.Refine overlap_divide, and History.Cover the blocks that the pieces cover.
-- - Queues: the queues of io_us (init_io_u of backend.c, __get_io_u, put_io_u, clear_io_u and requeue_io_u
--   of io_u.c, verify_io_u_async of verify.c), with put_file of filesetup.c. Queues.Moves states when
--   they are well formed, Queues.Steps treats each operation, Queues.Reach their runs.
-- - Service: the choice of the next file (get_next_file_rr, get_next_file_rand and __get_next_file of
--   io_u.c), with td_io_open_file and td_io_close_file of ioengines.c. Service.Rr treats round robin.
-- - Flow: flow control between jobs (flow.c). Flow.References treats the list of flows, Flow.Jobs the
--   runs of the jobs.
-- - Fill: fill_io_u of io_u.c, which puts the direction, the offset and the length of an io_u together
--   and marks it, with the switch of zones. Fill.Place treats where the io_u lies.
-- - Bytes, Verify: verify.c. Bytes has the buffers, as functions from offsets to bytes, with stores and
--   reads of numbers. Verify has the types and sizes of headers, Verify.Populate the filling of an io_u
--   (populate_verify_io_u), Verify.Check its verification (verify_io_u). The checksums, the random bytes
--   and is_match of the unique blocks are parameters. Verify.Blocks, Verify.Passes and Verify.Accepted
--   treat one block, Verify.Loops and Verify.RoundTrip an io_u, Verify.Found, Verify.Sound and
--   Verify.Lost what a result says,
--   Verify.Trimmed and Verify.Pattern the comparisons in chunks.
-- - IoLog: the written pieces that wait for verification (log_io_piece and prune_io_piece_log of iolog.c,
--   get_next_verify of verify.c, trim.c and trim.h). The operations of rbtree.c are a parameter. The
--   pieces of a job are all hashed or all plain, and io_hist_list stands in the history for the first
--   and in the logs for the others. IoLog.Order and IoLog.Descent treat the walk through the tree, IoLog.Keeps
--   and IoLog.Latest what the tree keeps, IoLog.Logged log_io_piece, IoLog.Taken get_next_verify,
--   IoLog.Prune the freed pieces, and IoLog.Trim get_next_trim, with IoLog.Trim.Pieces for the pieces
--   behind it and IoLog.Trim.Waits for what it keeps.
--
-- How the code is read. `unsigned int` and `unsigned long` are native numbers, cut to 32 and 64 bits
-- where the code can wrap. A result `none` where the code has no such return is a fault: a failed
-- assert, an access outside an array, or a shift that C leaves undefined. Loops over words are structural or run on fuel, and the
-- theorems show that the fuel given by the calls is enough: marking takes one round a block at most,
-- the search for a clear block one round a word, a run of blocks one round a word, the search of a
-- pool one round a word or fewer where it is shown to end.
-- Random numbers and the `double` arithmetic that scales them are the record `Offset.Rand`: a state,
-- a draw, and the scaled number, which does not exceed the range up to 2 ^ 53.
--
-- Not modelled: the io engines, the network client and server, option tables, signal and process
-- handling, output formatting, the checksums, the io log, and all else that no module above names.
pub mod Prelude
pub mod Bits
pub mod Ffz
pub mod FioFile
pub mod RandMap
pub mod Chains
pub mod Offset
pub mod Smalloc
pub mod Stat
pub mod SegMap
pub mod Marks
pub mod Time
pub mod Buflen
pub mod Direction
pub mod History
pub mod Queues
pub mod Service
pub mod Flow
pub mod Fill
pub mod Bytes
pub mod Verify
pub mod IoLog
