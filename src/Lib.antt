-- ===== src/Lib.antt =====
-- A verification of cpp-base, a base library of C++ components, by translation of its code.
--
-- The components are independent of one another but for the layers below, so each has a module, and
-- those that keep the same promise share its contract. `Prelude` holds the names that all files
-- share: tests and lists over the native numbers, arrays used in a circle, and `Outcome`, what a
-- call in C++ can do: return (`ok`), fail a glog CHECK (`fatal`), throw (`thrown`), or leave the
-- defined behaviour of the language (`undefined`: signed overflow, an index out of range, a
-- dangling iterator).
--
-- Fifo: the contract of the bounded queues (data-struct/).
-- RingBuffer: data-struct/ring_buffer.h. RingBuffer's TryPut is `try_put_ring`, TryGet is
--   `try_get_ring`. data-struct/pcqueue/mpmc_queue_by_mutex.h holds a mutex over each call of it, so
--   an execution of its threads is a sequence of calls, `run_ring`.
-- SpscQueue: data-struct/pcqueue/spsc_queue_by_folly.h, its two threads as interleaved accesses of
--   the shared memory. Sequential consistency is assumed; the C++ memory orders are not modelled.
--   A query (Empty, Full, SizeGuess, FrontPtr) takes the queue at each of its two loads, and the other
--   thread moves in between; the operands of SizeGuess's difference are loaded in either order.
-- Semaphores: data-struct/pcqueue/blocking_queue_by_semaphore.h, the actions of its threads one after
--   another (`run_blocking`) over a queue with the contract of Fifo.
-- LruMap: data-struct/lru_map.h over list nodes and iterators, and data-struct/lru_set.h.
-- Bytes: texts as lists of bytes.
-- Headers: http/http_headers.h, HttpHeaders as the list of its headers.
-- Uri: http/uri.cc, the percent coding (`url_encode`, `url_decode`), ParseQueryString and what
--   Assemble writes of the parameters, and the parameters themselves. A char is signed. `sscanf` and
--   `printf` are modelled for the one format that the code uses.
-- Words: machine words and exclusive or. Hash: the mixes and hashes of hash/hash.h.
-- CountMinSketch: data-struct/count_min_sketch.h. The number of rows is computed in floating point,
--   and is an argument.
-- BloomFilter: data-struct/bloom-filter/bloom_filter.cc.
-- ExpandableBloomFilter: data-struct/bloom-filter/expandable_bloom_filter.cc, over BloomFilter. The
--   seeds of the hashes come from the random generator of the C++ library and are a parameter.
-- Md5: hash/md5.cc, with the messages in pieces (`update_all`).
-- AsciiCtype: util/ascii_ctype.cc and .h, the tables and what reads them.
-- Numbers: string/numbers.cc and .h. `Print` has FastUInt32ToBufferLeft, with a function for each of
--   its labels, up to SimpleItoa; `Parse` has safe_strtoIntType_base_internal, split at its stages,
--   with the types int32 and int64. A char is signed; `int` arithmetic that overflows is `undefined`.
-- VectorMap: data-struct/vector_map.h, the hash map as a function.
-- ZVector: data-struct/zvector.h, with its block of memory, and whether there is memory as a
--   parameter.
-- Split: string/split.cc and .h, Split (with InternalSplitStringUsing), StringTrim, StartsWith and
--   EndsWith.
-- MathUtil: util/math_util.h, GCD, GCD64 and LeastCommonMultiple.
--
-- Fuel: `remove_loop` of Headers has the square of the number of headers plus one, since each
-- erasure starts one more pass over the list. `hex_digits` of Uri has 8, the digits of 32 bits.
-- `strip_spaces` and `duff_loop` of Numbers have the length of the text, of which each round takes a
-- byte, and the loop over blocks of Md5 has the length of the input. `split_loop` of Split has
-- the length of the text. `uint64_loop` of Numbers and `gcd_loop` of MathUtil are recursions on
-- accessibility. All other loops are recursions over the data.
--
-- Not modelled: sockets, files, threads' creation, clocks, floating point, std::regex, the
-- ZooKeeper client, logging and the generated callback.h, which are input and output or
-- code of other libraries; the cuckoo filter, the bitsets, the linked queue of Dr. Dobb's, StringPiece
-- and JoinStrings, the cords and the HTTP messages, which are not translated.
pub mod Prelude
pub mod Fifo
pub mod RingBuffer
pub mod SpscQueue
pub mod LruMap
pub mod Bytes
pub mod Headers
pub mod Uri
pub mod Words
pub mod Hash
pub mod CountMinSketch
pub mod BloomFilter
pub mod ExpandableBloomFilter
pub mod VectorMap
pub mod Md5
pub mod AsciiCtype
pub mod Numbers
pub mod ZVector
pub mod MathUtil
pub mod Split
pub mod Semaphores
