-- ===== src/Shell.antt =====
-- The shell of PennOS, src/shell: its modules.
pub mod Lexer
pub mod Parser
pub mod Jobs
pub mod Control
pub mod Execute
pub mod Loop
