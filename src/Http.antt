-- ===== src/Http.antt =====
-- Depends/Asula/Include/Asula/HttpServer.hpp
pub mod Uri
pub mod Route
pub mod Match
pub mod Beast
pub mod Session
pub mod Arguments
pub mod Registrar
pub mod Group
pub mod Server
pub mod System
pub mod Whole
