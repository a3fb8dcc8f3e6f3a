-- ===== src/Logs.antt =====
-- Logs on their way: the batches in flight (stormpulse/agent/log_batches.py), their receipts
-- (stormpulse/logging/receipt.py) and the stored positions (stormpulse/logging/positions.py).
pub mod Receipt
pub mod Pending
pub mod Positions
mod Tests
