-- ===== src/Ol.antt =====
-- internal/ol: the client of Open Library, robots.txt, and the parser of pages.
pub mod Client
pub mod Robots
pub mod Parser
