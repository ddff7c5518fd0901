-- ===== src/Common.antt =====
-- common/: the errors and what they are answered with, the monad in which the services are written,
-- the dispatch of requests, and the pagination.
pub mod Errors
pub mod Exec
pub mod Envelope
pub mod Answers
pub mod Requests
pub mod Pagination
pub mod Pages
