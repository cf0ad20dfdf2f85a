-- ===== src/UrlShortener.antt =====
-- url_shortener/main.go: how a URL is normalized, and the two handlers over the table of codes.
pub mod Normalize
pub mod Server
pub mod Examples
