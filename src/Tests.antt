-- ===== src/Tests.antt =====
-- The theorems at concrete services, comments, names, buffers, requests and events.
mod Services
mod Texts
mod Files
mod Agreement
mod Buffers
mod Frames
mod Requests
mod Spans
