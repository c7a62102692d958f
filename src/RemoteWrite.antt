-- ===== src/RemoteWrite.antt =====
-- internal/remotewrite: the requests that push the series to a Prometheus receiver.
pub mod Symbols
