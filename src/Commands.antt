-- ===== src/Commands.antt =====
-- The command whitelist (stormpulse/commands/registry.py, stormpulse/config/commands.py) and the
-- shapes of JSON params (stormpulse/config/param_schema.py).
pub mod Schema
pub mod Spec
pub mod Params
pub mod Registry
mod Tests
