-- ===== src/Tests.antt =====
-- The theorems at concrete inputs, and runs of the code.
mod Shown
mod Starting
mod Listening
mod Today
mod Stream
mod Players
mod Pages
mod Server
mod Records
mod Notices
mod Ingestion
mod Paged
mod Kits
mod Guarding
