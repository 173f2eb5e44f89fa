-- ===== src/Auth.antt =====
-- apps/api/src/auth: the guard that authenticates each request, with its request limits, and the
-- guards for roles and for the scopes of API tokens.
pub mod Window
pub mod JwtGuard
pub mod Scopes
mod Examples
