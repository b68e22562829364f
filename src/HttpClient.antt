-- ===== src/HttpClient.antt =====
-- Depends/Asula/Include/Asula/HttpClient.hpp
pub mod Request
pub mod Sending
pub mod Urls
pub mod Life
pub mod Replies
pub mod Calls
