-- ===== src/Lib.antt =====
-- The verification library of vmars, a probe that captures FIX messages from network interfaces,
-- pairs each request with its response, and reports latencies and counters.
--
-- How the program works. The options say how many capture threads each interface has (main.c). A
-- capture thread takes blocks of packets from the kernel (packet.c). The payload of each TCP
-- packet is searched for the start of FIX messages (simpleboyermoore.c), cut into messages, and
-- parsed (fix.c, fixparser.c); what is left over is kept as a fragment of its stream. For the
-- message types that are measured a summary is written into the thread's ring buffer (spsc_rb.c).
-- One latency thread takes the summaries off all rings and pairs them by key (latency_handler.c);
-- one counter thread adds up the counters of all capture threads (counter_handler.c). Both send
-- their numbers as text in UDP datagrams (jodie_client.c).
--
-- Which file models which part (paths from the root of the repository):
--   Config/*             src/main.c: Text the lists and numbers in the options, Defs the options,
--                        their tests and the contexts of the threads, Threads the rings, starts and
--                        joins; Servers what the reporting threads send to; Options, Plan,
--                        Started and Run the proofs
--   Packet/*             src/packet.c: Socket setup_socket and teardown_socket, Poll the loop over
--                        the ring of blocks, Defs walk_block and display, Thread vmars_poll_socket;
--                        Setup, Blocks, Order, Drain, Round and Captured the proofs
--   Search, Search/*     src/simpleboyermoore.c: boyermoore_init, boyermoore_search
--   Fix/*                src/fix.c: Details the fields of a message, Process the measured messages
--                        and their summaries, Fragments the fragments of streams, Extract the loop;
--                        Messages, Next, Items and Whole packets of whole messages, Damaged those
--                        with messages whose checksum is wrong, Stored, Split, Joined,
--                        Middle, Parts and Packets a message in several packets, Loop that the
--                        loop ends, Counted, Send and Keys what is counted and published
--   Parser/*             src/fixparser.c: vmars_fix_parse_msg; Encode is a printer to compare with,
--                        RoundTrip whole messages, Cut those that are cut off, Damaged those with
--                        another checksum
--   Ring/*               src/spsc_rb.c: Buffer map_buffer, Defs the other functions, Interleave the
--                        two threads
--   Summary              vmars_fix_message_summary_t of src/fix.h, with its layout in memory
--   Latency/*            src/latency_handler.c: Defs calculate_latency and its helpers, Poll the
--                        rounds over the rings, Report a turn with the report once a second,
--                        Turns the whole loop; Time, Pairs, Rounds, Drain, Log and Decode
--                        the proofs
--   Counters, Counters/* src/counter_handler.c: the totals, and in Report a turn that sends them,
--                        in Turns its loop; Totals and Statistics what the sums are to be
--   Jodie/*              src/jodie_client.c: Defs the send buffer and the log functions, Report
--                        gauges in a row and a flush, as both reporting threads send them
--   Pipeline/*           the components put together: Published what a block of packets leaves in a
--                        ring, Scheduled and Threads the rounds over the rings of several capture
--                        threads, Pair a request and its response; Interleave the threads at work
--                        in any order, Blocks a walk over a block as its steps, Orders,
--                        Kept and Delivered the proofs
--   DirectIo, DirectIo/* src/directio.c, a program of its own: write_image is its main
--   KHash                the interface of src/khash.h that the program uses, with its laws
--   CLib                 strtol and atoi of the C library
--   Prelude/*            numbers, lists, memory and text that the other files share
-- The definitions keep the names of the source's functions; a loop has a name of its own.
--
-- How the code is modelled. A pointer is a function from offsets to bytes, a byte its unsigned
-- value; memory that a function does not own has some bytes everywhere. Unsigned and signed words
-- are their bit patterns, with the wrap-around written out, also that of the index of the search
-- and of the differences of two times. Undefined behaviour (an overflow of an
-- `int` in the parser, a write past a buffer) is `none`. Loops are recursion on fuel that their
-- callers choose: the searched length for the search, the remaining bytes for the parser's loops,
-- one more than the packet's length for the loop over messages, each of which takes a byte at least.
-- The ring's buffer is mapped twice in a row: address a is byte a modulo capacity. Producer and
-- consumer are interleaved call by call, since each call reads or writes one shared position once;
-- in Pipeline/Interleave whole messages of the capture threads with whole rounds at their rings.
--
-- A system call is a parameter that answers to the calls before it (setup_socket, map_buffer), or
-- is given whether it succeeds (sendto); so are the kernel's headers and blocks, the clock and
-- HdrHistogram. Signals end a sequence of turns that the theorems are about.
--
-- Not modelled: what pthread_create and pthread_join do, which are events of src/main.c that
-- succeed, and the memory orders below a call of the ring; getopt_long, which is the list of
-- options that it gives; src/khash.h, a copy of a library; the text output of src/common.c; where
-- the datagrams of src/jodie_client.c go.
pub mod Prelude
pub mod Search
pub mod Parser
pub mod Ring
pub mod KHash
pub mod CLib
pub mod Summary
pub mod Latency
pub mod Counters
pub mod Fix
pub mod Packet
pub mod Config
pub mod Jodie
pub mod Pipeline
pub mod DirectIo
