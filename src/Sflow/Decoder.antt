-- ===== src/Sflow/Decoder.antt =====
-- pkg/sflow/decoder.go: the flow records of one sFlow datagram, and the headers that they sample.
pub mod Bytes
pub mod Headers
pub mod Records
pub mod Bounds
pub mod Rows
pub mod Exact
pub mod RoundTrip
pub mod Wrap
pub mod Examples
