-- ===== src/Base.antt =====
-- The drivers of client/wisp-base.
pub mod Uart
pub mod Fram
pub mod Spi
pub mod Accel
pub mod Adc
pub mod Rfid
pub mod Rand
pub mod Tick
