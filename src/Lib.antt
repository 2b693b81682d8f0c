-- ===== src/Lib.antt =====
-- MMT-Probe: a verification library of the core of the probe, in C.
--
-- The probe captures packets, hands them to worker threads, lets the DPI library extract protocol
-- attributes, and writes reports. A monitor process starts and watches the processing process and
-- a control process; commands that come in on the control process's socket go to the others over a
-- bus in shared memory. The files model these parts:
--
--   * Base: names of the libraries that all files share, Boolean tests, arrays as lists with native
--     indices (Base.Lists), 16 and 32-bit words (Base.Words), byte strings (Base.Bytes).
--   * Capture.LockFree: src/modules/packet_capture/pcap/lock_free_spsc_ring.h and .c. `push_check`,
--     `push_write` and `push_publish` are the parts of `queue_push` between its accesses to shared memory, `pop_check`, `pop_read` and
--     `update_tail` those of `queue_pop`; `Step` interleaves them. Inv holds the invariant, Keep
--     and Fifo follow the values, Slots has the whole calls, and Refine compares them with an
--     abstract bounded list. Capture.DataRing is data_spsc_ring.h over
--     the queue, and Capture.Handover the way of an element through it. Capture.Dpdk:
--     src/modules/packet_capture/dpdk/spsc_ring.h, each call as one step. Capture.Dispatch,
--     Capture.Worker and Capture.Timer: the hash and the distribution of packets, the turn of a
--     worker's loop, and its milestones, of
--     src/modules/packet_capture/pcap/pcap_capture.c; Capture.Reader: the function of the same file
--     that libpcap calls, and in Whole the reader and the workers together.
--   * Config: lookup and validation of parameters, src/configure_override.c and .h. Config.Override:
--     `_override_element_by_ident` and its callers; Outcome has what an assignment changes, Reading
--     what a parameter reads as. Config.Channels: the set of output channels of src/configure.c, and
--     Config.Check: `conf_validate` of the same file.
--   * Dynamic.Bus: src/modules/dynamic_conf/mmt_bus.c, a function for each critical section.
--     Dynamic.Update: `_parse_update_parameters` and `parse_command_parameters` of
--     src/modules/dynamic_conf/server.c, the writer and the reader of a command's parameters.
--     Dynamic.Server: `_processing` of the same file, which calls the writer and publishes on
--     the bus; Chunks follows the loop of `read`, Command a whole update command.
--   * Monitor: `_create_sub_processes` of src/main.c, `_receive_message` of
--     src/modules/dynamic_conf/dynamic_conf.c, and the decision of agency.c whether to restart.
--     It reads a command by the functions of Dynamic.Update; Monitor.Settings puts the overrides of
--     Config.Override in.
--   * Output: src/modules/output/output.c. Output.File: file/file_output.c of that folder, with the
--     limit on the files in Retain and the life of a file in Cycle; Output.Cache: mongodb/mongodb.c.
--     Output.Reports is about the text of a report, Output.Lines takes reports down to a file.
--   * Text: src/lib/string_builder.h, `append_number` in Text.Number, and the other functions and
--     the macros in Text.Builder.
--   * Report.Rtt: src/modules/dpi/report/tcp_rtt.c. Report.MicroFlow: micro_flow_report.c and .h of
--     the same folder. Report.Session: session_report.c of the same folder, from the first packet of
--     a session to its reports; Figures follows the counters, Latency the times, RoundTrips the
--     round trip times over a session (Sums: one measurement), and Session.Message has the text of a
--     report, of which Columns has the columns; Joined puts them together. Report.Apps:
--     what the session_report_web.c, _ssl.c, _rtp.c and _gtp.c beside it keep of an application.
--   * Dpi.Dump: src/modules/dpi/pcap_dump/pcap_dump.c; Format has a reader of its files, Held what
--     they hold, and Paths is about what it opens.
--     Dpi.Life: src/modules/dpi/dpi.c, the handlers of a session, which call the session reports,
--     the micro flows and the dump; Events puts them in a row, Account follows a whole life,
--     Web has the requests of a web session, with the report that each of them makes, and Requests
--     is about how such a session is counted.
--   * Http.Chunk: `chunk_decode` of src/modules/dpi/reconstruct/http/decode.c.
--   * Tests: the models on small inputs.
--
-- How the code is rendered. Numbers are natural numbers; a sum in a machine word is reduced modulo
-- 2^16, 2^32 or 2^64 where the source's type does so. A buffer is the list of its bytes from the
-- pointer on, an array is a list, a linked list is the list of what its nodes hold. Shared memory
-- is sequentially consistent, as its accesses by the builtins __sync are full barriers. Whether a
-- lock was obtained, what fork and waitpid answered, the fields that the DPI library gives of a
-- session, `strtol`, `atoi`, `atol`, the lists that libconfuse reads, what `read`, `scandir` and
-- `fopen` answered, and the table of parameters are arguments; what is asked of the system when
-- files are written is a list of calls. A write or a read outside of an array is the result `none`,
-- `faulty` or `overread` where the source does not exclude it.
--
-- Bounds and fuel. The two loops of `append_number` run on fuel 20: a value of 64 bits has 20
-- digits at most. The loop of `_parse_update_parameters` runs on the length of the buffer, and
-- that of `chunk_decode` on `data_len + 1`: each turn takes at least two bytes where its
-- sums in 32 bits do not wrap (Http.Chunk.Plain). The lengths that
-- `_parse_update_parameters` counts in `uint16_t` do not wrap, as the server's buffer is shorter
-- than 2^16 bytes.
--
-- Not modelled: the calls of libpcap, DPDK, libconfuse, the DPI and the security library, the
-- connections to Kafka, MongoDB, Redis and sockets, logging, allocation and release of memory,
-- the mutex of an output, the FTP part of the session reports, the reports of events, of packets
-- without a session and of Radius, the tables of LTE, the reassembly and the reconstruction of FTP
-- and HTTP but for the chunks, the start and end of worker threads, the loading of the
-- configuration file, the license, and the old sources in src/_old, which are not compiled.
pub mod Base
pub mod Capture
pub mod Config
pub mod Dpi
pub mod Dynamic
pub mod Http
pub mod Monitor
pub mod Output
pub mod Report
pub mod Tests
pub mod Text
