-- ===== src/Lib.antt =====
-- UC2 is an archiver: a C library (lib/), a command line (cli/) and the sources of the historical
-- program (original/). This development models parts of the library that stand on their own and that
-- an archive's integrity rests on, and proves what a user relies on.
--
-- What is modelled. Bytes are numbers below 256 and buffers are lists of them; a pointer into a buffer
-- is the list of what lies behind it. A function that can fail returns a `Result` (Common/Result): `ok`,
-- `err` with the code of the source, or `stuck`, which a loop returns that runs out of fuel (and, in
-- Bitstream/Out, a write behind the end of the buffer), so that a theorem `≢ stuck` is a theorem of
-- termination. Loops that only count down what is left of their input, or the bits of a word, have that
-- as fuel and end with it. An `int` that a function returns is an integer of Common/Ints where the conversion of a
-- count to it can change the number. Memory comes from an allocator, a test on the
-- size of a request, wherever the code checks that malloc and realloc succeed.
--
-- * Delta (lib/src/uc2_delta.c). Delta/Obuf is `struct obuf` with `obuf_append`, `emit_copy` and
--   `emit_insert`; Delta/Encode is `uc2_delta_encode`, its hash table, match finder and scan;
--   Delta/Apply is `uc2_delta_apply`. Delta/Instr is an independent account of the format, a list of
--   copies and inserts with the text that it means, which encoder and decoder are compared with. The
--   scan has the target's length as fuel, the decoder the delta's, since a round takes a byte at least; a
--   capacity of a byte or more has the highest bit of a `size_t` after 63 doublings, so that loop has 64
--   rounds. A match is extended by recursion on the bytes behind it.
-- * Ots (lib/src/uc2_ots.c, lib/include/uc2/uc2_ots.h). Ots/Varint is the number format, Ots/File the
--   detached proof file, Ots/Trailer the block that puts a proof behind an archive, Ots/Walk the walk
--   over a serialized timestamp. SHA-256 is an interface, a function with results of 32 bytes. The walk
--   has twice the body's length and two as fuel: a node and each of its items cost one. Ots/Stamp is an
--   independent account of serialized timestamps, as trees with their bytes and their meaning.
-- * Filters (lib/src/uc2_preprocess.c). Filters/Bcj is `uc2_bcj_apply` and `uc2_bcj_revert`, whose
--   `int32_t` sums wrap here, Filters/Stride is `uc2_delta_filter_apply` and `uc2_delta_filter_revert`,
--   with writes in place in the order of the code, Filters/Content is `uc2_detect_content`,
--   Filters/Kinds an account of its decision by prefixes, sets of bytes and shares.
--   Filters/Carried is `struct delta` of lib/src/decompress.c, which keeps its state from block to block;
--   an index behind the end of its array is an outcome of its own.
-- * Cdc (lib/src/uc2_cdc.c). Cdc/Chunker is `struct uc2_chunker` and its operations.
-- * Merkle (lib/src/uc2_merkle.c), a client of the chunker. Merkle/Tree is `struct uc2_merkle`,
--   `uc2_merkle_build` and the comparisons. The loop over the chunks has the file's length and one as
--   fuel: every chunk has a byte.
-- * Dict (lib/src/uc2_dict.c), a client of both hashes. Dict/Store is `struct uc2_dict` and its operations;
--   a copy beyond the buffer is an outcome of its own.
-- * Rans (lib/src/uc2_rans.c). Rans/Coder is the encoder and the decoder, Rans/Build `uc2_rans_build_table`. A state has 32 bits, so that five
--   rounds end the loop that shifts bytes out; the decoder's loop takes a byte each round.
-- * Sha256 (lib/src/uc2_sha256.c, lib/include/uc2/uc2_sha256.h). Sha256/Compress is the compression
--   function, Sha256/Stream the context with `uc2_sha256_init`, `uc2_sha256_update`,
--   `uc2_sha256_final`; what the buffer holds behind its length is any bytes. Sha256/Padded is an account
--   of the standard on the whole message. The loop over whole blocks has the data's length as fuel.
-- * Blake3 (lib/src/uc2_blake3.c). Blake3/Compress is the compression function, Blake3/Stream the context
--   with `uc2_blake3_init`, `uc2_blake3_update`, `uc2_blake3_final` and `uc2_blake3_equal`; Blake3/Tree is an
--   independent account of the hash as a tree of chunks. The stack's loop has 64 rounds, one for each
--   bit of the counter, and the update the data's length: a turn copies a byte at least.
-- * Blockstore (lib/src/uc2_blockstore.c), a client of the tree of chunks. Blockstore/Store is
--   `struct uc2_blockstore` and its operations on the files of a disk; reading a file never fails.
-- * Lz4 (lib/src/uc2_lz4.c). Lz4/Decode is `uc2_lz4_decompress`, Lz4/Encode `uc2_lz4_compress`. The decoder
--   has the length of its input as fuel, the encoder that of the source; its search has one unit for
--   each position left.
-- * Simhash (lib/src/uc2_simhash.c). Simhash/Hash is `uc2_simhash` and `uc2_hamming`; a vote that would leave
--   `int32_t` has no result. A word of 64 bits is cleared in 64 rounds.
-- * Csum (lib/src/decompress.c, `struct csum`). Csum/Update is `csum_init`, `csum_update`, `csum_get`.
-- * Bitstream. Bitstream/Out is `struct bits_out` (lib/src/compress.c), Bitstream/In `struct bits`
--   (lib/src/decompress.c); Bitstream/Digits is an independent account, the stream as a list of binary
--   digits. The loop that waits for two bytes has two turns: a call of the reader returns a byte at least.
--
-- What is not modelled: null pointers and pointers to results (a result is returned), the allocator's own state,
-- the table of names `uc2_ots_attest_name`, the Burrows-Wheeler transform, and the components that the manifest lists as such.
pub mod Common
pub mod Bitstream
pub mod Blake3
pub mod Blockstore
pub mod Cdc
pub mod Csum
pub mod Delta
pub mod Dict
pub mod Filters
pub mod Lz4
pub mod Merkle
pub mod Ots
pub mod Rans
pub mod Sha256
pub mod Simhash
