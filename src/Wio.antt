-- ===== src/Wio.antt =====
-- client/wisp-base/wio: the buffers, queues and timers of the WISP input and output library.
pub mod Status
pub mod Buf
pub mod Queue
pub mod Timer
