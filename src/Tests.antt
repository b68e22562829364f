-- ===== src/Tests.antt =====
-- Concrete inputs: tests of the definitions, and each theorem at an input that meets its hypotheses.
mod Uri
mod Routes
mod Tables
mod Deployed
mod Lives
mod Requests
mod Groups
mod Wholes
mod Writes
mod Clients
mod Network
mod Sockets
