-- ===== src/Events/Repeat.antt =====
-- execution/broker.py: a fill that is reported again is not counted again.
pub mod Marker
pub mod Fills
