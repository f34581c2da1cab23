-- ===== src/Proxy.antt =====
-- pkg/proxy: what `ServeHTTP` does with a request.
pub mod Routing
pub mod Http
pub mod Helpers
pub mod Outbound
pub mod CacheKey
pub mod RateLimiter
pub mod Responses
pub mod Setup
pub mod Serving
