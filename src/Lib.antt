-- ===== src/Lib.antt =====
-- CarWatch's storage path, and the reply lines and the JSON writer of its status daemon.
--
-- The program runs as separate processes. A capture process decodes samples and pushes them into a
-- ring in shared memory; storaged peeks at the ring, writes the samples in batches to a write-ahead
-- log, and releases the ring's slots once a batch is durable; after a crash it recovers the log by
-- scanning its newest segment. statusd reads
-- reply lines of its source and answers over HTTP with JSON.
--
-- The files, each named for the part that it models:
--   Label         include/common/log.h: the labels that say where data comes from.
--   Ring          src/ipc/ring.c, include/ipc/ring.h: `ring_push`, `ring_peek`, `ring_release`,
--                 `ring_pop` are `push`, `peek`, `release`, `pop` on a record of the ring's fields.
--                 Bounds has the invariant, Queue what the ring promises, Refine that it keeps the
--                 promise, Numbering the slots' sequence numbers. Threads interleaves one producer
--                 and one consumer at each access to shared memory, Threads/Safety has what holds
--                 in every state that they reach.
--   Crc           src/store/crc32.c: `rec_crc32` by its table; Bitwise is CRC-32 one bit at a time.
--   Record        src/store/record.c, include/store/record.h: `rec_encode` and `rec_decode`, with
--                 the header's fields in Header, round trips in RoundTrip and Canonical, and what
--                 a decoded record is in Bounds.
--   Text          what the C library's `sscanf`, `snprintf`, `memchr` and `strcmp` do where the
--                 program uses them.
--   Wal           src/store/wal.c, include/store/wal.h. Scan is `wal_scan`: Steps takes its loop
--                 one record at a time, Log says what whole batches are, Recovery has scans of
--                 batches, Idempotent scans of any bytes. Batch is the buffer with `append`,
--                 `wal_add`, `wal_due` and `drop_batch`. Commit is `wal_commit` with
--                 `create_segment`; Atomic says what it comes to, Crash what recovery then scans.
--                 Segments is `newest_segment`, `seg_path` and `recover_segment`, Open is
--                 `wal_open` and `wal_close`.
--   Store         src/store/main.c: `note_generation`, `note_ring_seq` and `drain`; Loop is one pass
--                 of `main`'s loop, Run its arguments and its clean stop. Drain says what one drain
--                 moves, Steady and Notes what drains and notes leave alone, Taken where the slots
--                 are that were taken, Release when they are released.
--   Json          src/interface/json.c, include/interface/json.h: the writer, one function per
--                 call; Calls has what holds after any calls.
--   Kv            src/interface/kv.c, include/interface/kv.h: `kv_parse_line`, `kv_reply_next`,
--                 `kv_reply_check`, `kv_get`; Sizes has the fixed-size arrays, Reply whole replies.
--                 Wire is the text of a line from its parts, Fields and RoundTrip read it back, and
--                 Decimal says that a printed number is a value.
--   Http          src/interface/http.c, include/interface/http.h: `decode`, `path_is_unsafe` and
--                 `http_query_get`; Request is `http_parse_request`, Head `http_write_head`. What an
--                 accepted request promises is in Request/Safety, what is accepted in
--                 Request/Complete.
--   Server        src/interface/server.c, include/interface/server.h: the connection slots. Write
--                 is laying out and sending answers, Read is `conn_read`, Step is `accept_new`,
--                 `reap` and `server_step`. Conns, Answers, Slots and Accepting follow one slot
--                 through the operations, Rounds has what a round keeps, Handlers what is made of
--                 a handler's response.
--   Route         src/interface/route.c: Url makes a line for the source from a query, Show the JSON
--                 of a reply, Route is the handler. RequestLine says what a line to the source looks
--                 like, Replies that the server sends what the handler leaves.
--   Synth         src/interface/synth_source.c and its header: the synthetic source. Synth has the
--                 buffer and the replies without arguments, Series `parse_when`, `reply_series` and
--                 `synth_query`. StatusLines and EventLines show that each line is a record of the
--                 reply format, by Records; Lines has lines in a buffer, Reply lines as a reply,
--                 Answers and Contract what the source promises, Grid the times of a series.
--   Prelude       lists, bits, bytes and words that the others share.
--
-- State is passed explicitly: a function that changes what a pointer points to returns the new
-- value beside its result. A machine integer is a natural number with its wrap-around written out;
-- theorems ask that fields fit their widths where it matters. A float is its bit pattern, and what
-- `%.1f` prints is an argument. What the kernel returns to the program (`write`, `fsync`,
-- `ftruncate`, `open`, `readdir`, the clock) is an argument, and so is what the handler makes of a
-- request. A list of results of `write` that ends early stands for a loss of power; one of `send` or
-- `accept4`, for a call that would block. In a commit, power can also fail in `fsync`, `ftruncate` and
-- the creation of a segment: a file says how many of its bytes are synced, and of the bytes behind
-- them only some first ones then stay.
--
-- Fuel: `parse_fields`, `kv_reply_check` and `records_to_json` get a round for each byte, and
-- every field and every line takes at least one; the scan's loop gets as many rounds as the segment
-- has bytes, and a record has at least 48; `print_digits` gets 20 digits, enough for 64 bits in
-- base 10; `drain` of Store gets one round for each view of the ring that it is given, and a ring
-- holds 4096 slots; the loop over a series' times gets 301 rounds, one for each sample and one for
-- its end.
--
-- Not modelled: shared memory and its names (src/ipc/shm.c), logging, the set-up
-- of storaged's rings and signals, the start of statusd (statusd_main.c of src/interface),
-- the stubs of the other processes, the page, and the Python
-- tools. The threads are sequentially consistent; the acquire and release orderings are taken to
-- give that for the plain accesses of the slots.
pub mod Prelude
pub mod Label
pub mod Ring
pub mod Crc
pub mod Record
pub mod Text
pub mod Wal
pub mod Store
pub mod Json
pub mod Kv
pub mod Http
pub mod Route
pub mod Server
pub mod Synth
