-- ===== src/Client.antt =====
-- internal/client/client.go: the HTTP client of the Confluent Schema Registry API.
pub mod Types
pub mod Requests
pub mod Calls
pub mod Answers
pub mod Authorization
pub mod Urls
