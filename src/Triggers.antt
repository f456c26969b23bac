-- ===== src/Triggers.antt =====
-- app/services/triggers.py and app/services/trigger_state.py: conditions, the duration gate, and
-- the responders of a trigger.
pub mod Condition
pub mod Gate
pub mod Respond
pub mod Fire
mod Tests
