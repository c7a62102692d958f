-- ===== src/Lib.antt =====
-- xflow-exporter: a collector of NetFlow, IPFIX and sFlow datagrams that aggregates their flow
-- records and publishes the aggregates as Prometheus metrics.
--
-- A datagram reaches `Decoder.Decode` (internal/decoder), which names its protocol, accounts the
-- device that sent it and parses it into flow records (internal/flow) with the state that the
-- device's observation domain keeps: its templates, its position in the sequence, its declared
-- sampling rates and its samplers. `Aggregator.Ingest` (internal/aggregator) corrects each record
-- by its sampling rate and adds it to the tables of the enabled modules, which a ticker sweeps and
-- a scrape reads.
--
-- The files:
--   Common: lists, maps, machine words, bytes and decimal numerals. A Go map is an association list
--     with distinct keys; a read outside a slice is a panic, the `none` of an Option.
--   Flow: internal/flow/flow.go. A count is a number below 2^64; a time is a number of nanoseconds
--     since the zero instant of `time.Time`. Flow/Correction is about `Corrected`, Flow/Identity
--     about the labels and the equality of the comparable types.
--   Aggregator/Tables: internal/aggregator/table.go, `table[K]` with `add`, `sweep` and `snapshot`;
--     its children follow one table through a run of calls. Aggregator/Keys holds the eleven keys.
--   Aggregator: internal/aggregator/aggregator.go, `New`, `Ingest`, `sweep`, `Health` and the
--     snapshots; a table is absent where its module is disabled. The lookup of service ports is a
--     parameter of the aggregator there as it is here.
--   Decoder/Sniff and Decoder/Reason: internal/decoder/decoder.go, `sniffVersion` and the reasons.
--   Decoder/Clock: internal/decoder/clock.go.
--   Decoder/Stats: internal/decoder/stats.go, the counters of each device and the budget of devices.
--   Decoder/Domain, Sequence, Samplers, Declarations and Templates: internal/decoder/templates.go,
--     the state of one domain and the operations under its lock. What a domain reaches by pointer,
--     the device's budget and its table of declarations, is passed beside it and returned.
--   Decoder/Store: internal/decoder/templates.go, `templateStore`: which domains a device has open,
--     the bounds on them, and the sweep. Decoder/Accounting holds the counters of the record path.
--   Decoder/Apps: internal/decoder/apps.go, the vendor strings and the names of applications.
--   Decoder/Netflow5: internal/decoder/netflow5.go, the parser of NetFlow v5 over the store.
--   Decoder/Netflow8 and AggregatedRecords: internal/decoder/netflow8.go, one reader per method. The
--     layouts in AggregatedRecords/Layouts are what the readers are held against.
--   Decoder/Elements, Fields and Finish: internal/decoder/fields.go, the values of elements, the
--     elements of one data record, and what is settled once all of them are read.
--   Decoder/State: internal/decoder/decoder.go, the state that the parsers share.
--   Decoder/Options and Notes: internal/decoder/options.go and internal/decoder/notes.go.
--   Decoder/Register, TemplateFlowSets, DataFlowSets and Netflow9: internal/decoder/netflow9.go, the
--     announcements that both template protocols share, the flowsets, and the datagram.
--   Decoder/TemplateSets, IpfixLengths, DataSets and Ipfix: internal/decoder/ipfix.go, the
--     announcements, the check of every length ahead of them, the records, and the message.
--   Decoder/ByteReader, SampledPackets, FlowSamples and Sflow5: internal/decoder/sflow5.go, the cursor,
--     the records that describe a packet, the samples that hold them, and the datagram.
--   Decoder/Dispatch: internal/decoder/decoder.go, `Decode`, which leads to all of the parsers.
--   Decoder/Soundness: what the template parsers rely on in the store, and that each operation keeps
--     it.
--   Decoder/Packets: internal/decoder/l2l3.go, the headers of sampled packets.
--   RemoteWrite/Symbols: internal/remotewrite/symbols.go, the symbol table of a push request.
--   Examples: the theorems at concrete inputs.
--
-- Concurrency: each operation that the code runs under one lock, and each atomic addition, is one
-- step here; runs of operations are lists of steps in any order. One datagram is parsed with no other
-- step in between. Loops over slices and maps are recursion on lists or on a count; the walks of the
-- template protocols are on fuel, the length of what they walk and one, since each round of them
-- steps over a byte at least.
--
-- Not modelled: the sockets, the HTTP server, the command line, logging and the metrics library;
-- the enrichment and the collectors.
pub mod Aggregator
pub mod Common
pub mod Decoder
pub mod Examples
pub mod Flow
pub mod RemoteWrite
