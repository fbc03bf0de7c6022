-- ===== src/Examples.antt =====
-- Runs of the model on small inputs, and the theorems on them.
mod Buffers
mod Queues
mod Timers
mod Sending
mod Receiving
mod Epc
mod Uart
mod Messages
mod Fram
mod Accel
mod Adc
mod Fs
mod Runtime
mod Context
mod Link
mod Setup
mod Rand
