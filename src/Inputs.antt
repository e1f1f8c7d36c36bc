-- ===== src/Inputs.antt =====
-- The inputs of the forms (assets/js/hooks).
pub mod RichText
pub mod DateInput
mod Tests
