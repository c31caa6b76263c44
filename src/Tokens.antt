-- ===== src/Tokens.antt =====
-- src/domain/token_management: the tokens of a context window.
pub mod Budget
