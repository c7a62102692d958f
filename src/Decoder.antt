-- ===== src/Decoder.antt =====
-- internal/decoder: datagrams into flow records.
pub mod Clock
pub mod Reason
pub mod Sniff
pub mod Domain
pub mod Sequence
pub mod Samplers
pub mod Declarations
pub mod Templates
pub mod Stats
pub mod Store
pub mod Accounting
pub mod Apps
pub mod Packets
pub mod Netflow5
pub mod AggregatedRecords
pub mod Netflow8
pub mod Elements
pub mod Fields
pub mod Finish
pub mod State
pub mod Options
pub mod Notes
pub mod Register
pub mod Soundness
pub mod TemplateFlowSets
pub mod DataFlowSets
pub mod TemplateSets
pub mod IpfixLengths
pub mod DataSets
pub mod Ipfix
pub mod ByteReader
pub mod SampledPackets
pub mod FlowSamples
pub mod Sflow5
pub mod Netflow9
pub mod Dispatch
