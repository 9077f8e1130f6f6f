-- ===== src/Pipe.antt =====
-- Kernel/pipes/pipe.c.
pub mod Buffer
pub mod Manager
pub mod Transfer
pub mod Close
pub mod Fifo
pub mod RoundTrip
pub mod Write
pub mod Read
pub mod Channel
pub mod Wf
pub mod ReadWf
