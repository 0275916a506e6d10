-- ===== src/Lib.antt =====
-- A verification library for memtier_benchmark, the load generator of this repository.
--
-- The program asks a server for keys and measures the answers. A client makes requests with an object
-- generator (obj_gen.cpp) by the options that config_types.cpp parses. It sends them over shard connections
-- (shard_connection.cpp), each with a queue of the requests that wait for their responses, and a protocol
-- (protocol.cpp) that writes the commands to an evbuffer of libevent and reads the responses from another.
--
-- The files, and the code that each is about:
--   Prelude        nothing of the program: numbers, lists and tests that the other files share
--   CLib           the functions of the C library that the program calls on strings; Bits: words by their bits
--   Config         config_types.h, config_types.cpp: ranges, ratios, weight lists
--   Evbuffer       libevent, as an interface with its documented behaviour
--   Protocol       protocol.h, protocol.cpp. Base: protocol_response and the multi bulk replies.
--                  Redis, Text, Binary: the three protocols, with a child Command for what they write.
--                  Keylist: class keylist
--   FileIo         file_io.h, file_io.cpp, item.h, item.cpp: the reader and the writer of data files
--   ObjGen         obj_gen.h, obj_gen.cpp: random numbers, keys, sizes, values and objects. Import:
--                  imported_keylist::read_keys and import_object_generator
--   ShardConnection  shard_connection.h, shard_connection.cpp. Handle: process_response. Fill:
--                  fill_pipeline. Event: handle_event. The connections manager and the protocol are
--                  interfaces there.
--   Client         client.h, client.cpp: create_request and hold_pipeline, over the object generator as an
--                  interface. Stats, Merge: run_stats. Responses: handle_response, finished and the arrays of
--                  latencies. Verify: verify_client. Setup: setup_client and prepare
--   Cluster        cluster_client.h, cluster_client.cpp. HashSlot: the slot of a key. Shards: the connections
--                  and the shard of each slot. Requests: the pools of keys and create_request. Crc, Ranges,
--                  Addresses, Assign, Routes, Reconnect, Pools, Keys, Spin: the proofs
--   JsonHandler    JSON_handler.h, JSON_handler.cpp: the writer of results
--   Benchmark      memtier_benchmark.cpp, memtier_benchmark.h: the configuration and the options. Args, Parse:
--                  config_parse_args. Defaults: config_init_defaults. Start: the checks of main and its settings
--                  of the object generator. Runs: the best and the worst run. Latency: process_results.
--                  ConfigJson: config_print_to_json, by the texts of ConfigText. Master: parse_config_file and start_master. Valid, Ready,
--                  Defaulted, Safe, Rated, Paced: the proofs
--   Tests          the properties at concrete inputs
--
-- A cluster client is a client of its own kind: it uses a shard connection for each shard, the object generator,
-- and the multi bulk reply of the Redis protocol. A verify_client runs beside the object generator of the
-- client that wrote the keys. The main program parses the options by config_types.cpp, sets up the object generator,
-- and writes its configuration with the JSON handler.
--
-- Definitions have the names of the functions and members that they model. A member function takes the object
-- as a record, and gives it back changed. A failed assertion is `none` or the outcome `aborted`; a write
-- outside of an array is the outcome `overrun`; a pointer that may be NULL is an Option. Numbers are natural
-- numbers; an unsigned int or unsigned long long is kept below its bound where the code lets it wrap, and an
-- int is its bit pattern. The sizes that commands return are not reduced to an int, nor are the lengths in file_io,
-- where the size of the buffer for a string with quotes, twice its length, would overflow from 1 GiB on.
--
-- Memory is taken never to run out, and the evbuffer to do what it documents: the assertions on malloc, strdup,
-- evbuffer_remove and evbuffer_drain in the parsers are left out, and with them the malloc of 4294967295 bytes
-- at a null bulk within an array. The median and the standard deviation of the keys are whole numbers; the
-- arithmetic of the median in gaussian_distribution_range is exact, as that of doubles is for keys below 2 ^ 52.
--
-- Loops. A parse_response is a loop of rounds on the state of the parser. Redis: a line takes a round or
-- returns, and a bulk takes two, so that the length of the buffer and two rounds are enough. Text: a line takes
-- a round, a value one more, and the first and last round take nothing: the length of the buffer and three.
-- Binary: a header and a body, two rounds. get_next_size goes round the list twice at most, which is its fuel
-- in the object generator. fetch_keys goes through the keys that are left. process_response and fill_pipeline
-- take their number of rounds as an argument, since they depend on the manager; for process_response one more
-- than the responses in the buffer are enough. get_key_for_conn generates keys until one is for its connection or
-- the limit of requests is reached: as many keys as requests are left are enough while the pools have room, and
-- without a limit no number is. read_keys takes a round for each item and two more. A std::sort is an insertion
-- sort. prepare goes through the results of the connects that come. read_string, scan_values and the loops of
-- run_stats::merge are structural, and so are those of the main program, but for the loop of start_master, which is a
-- relation on states over the clocks that it reads.
--
-- Parameters. The evbuffer, random_r and initstate_r, floating point (the loop of gaussian_distribution_range, the
-- sizes that grow with the key, and the bucket of a latency in the maps of run_stats), the clocks, the interval
-- generator, the socket, MAX_ENTRIES in the client, the doubles of the schedule and their rates, PerfUtils (the
-- statistics and fromNanoseconds), what the host tells main, strtof, the rate of
-- operations of a run, and whether an address of a shard is resolved and connected. A file is its
-- content, with the end-of-file flag of its stream.
--
-- Not modelled: of client.cpp the groups of clients, aggregate_average, save_csv and print, and the rates in floating
-- point; sockets, name resolution and event registration; of memtier_benchmark.cpp the threads and the progress line
-- of run_benchmark, config_print, the number of requests that the master reports, and the video processes;
-- generator.cpp, in floating point; the scripts; and the third-party header libmemcached_protocol/binary.h beyond
-- the fields in use. The options reach config_parse_args as getopt_long finds them: the names and abbreviations that
-- it matches are its own.
pub mod Prelude
pub mod CLib
pub mod Config
pub mod Evbuffer
pub mod Protocol
pub mod FileIo
pub mod ObjGen
pub mod ShardConnection
pub mod Client
pub mod Cluster
pub mod JsonHandler
pub mod Benchmark
pub mod Tests
