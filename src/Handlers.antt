-- ===== src/Handlers.antt =====
-- src/handlers: the values on the wire (Handlers/Values), the order of the checks of the inference
-- handlers (Handlers/Admission) and their streamed responses (Handlers/Streams).
pub mod Values
pub mod Admission
pub mod Streams
