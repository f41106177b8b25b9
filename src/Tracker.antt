-- ===== src/Tracker.antt =====
-- mirror-agent/tracker.go: TCP payloads are gathered by stream and read as HTTP/1.x requests.
pub mod Request
pub mod Batch
pub mod Streams
pub mod Segment
pub mod Feed
pub mod Trace
pub mod Reaper
pub mod Order
pub mod Live
