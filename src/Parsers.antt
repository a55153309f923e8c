-- ===== src/Parsers.antt =====
-- components/sniffer_core/parsers.cpp: what is read from the bytes of a frame or an advertisement.
-- A span is a list of bytes; each read stands behind the size test of the source. A parser that
-- returns false leaves its output untouched: `none`.
pub mod Bytes
pub mod Samsung
pub mod RemoteId
pub mod Ble
pub mod Wifi
