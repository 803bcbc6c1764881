-- ===== src/Jodie.antt =====
-- src/jodie_client.c: gauges are gathered in a buffer and sent in datagrams.
pub mod Defs
pub mod Buffer
pub mod Report
pub mod Lines
mod Tests
