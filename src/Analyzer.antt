-- ===== src/Analyzer.antt =====
-- analyzer.py: the choices among immutable rolling states.
pub mod Selection
pub mod Projection
pub mod Scope
