-- ===== src/Backend.antt =====
-- frontend/src/services/backendClient.ts, errors.ts and sessionStorage.ts: the requests that the
-- client sends, what it makes of the replies, and its errors. The server is a parameter, a function
-- from its state and a request to its next state and a reply.
pub mod Http
pub mod User
pub mod Account
pub mod Admin
pub mod Offchain
pub mod Laws
mod Tests
