-- ===== src/Regex.antt =====
-- src/regex/: the regular-expression engine.
pub mod CharClass
pub mod NodeList
pub mod Handle
pub mod Parser
pub mod Span
pub mod Program
pub mod Vm
pub mod Language
