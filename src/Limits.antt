-- ===== src/Limits.antt =====
-- Limits on use: the sliding-window rate limiter and its middleware
-- (backend-python/app/middleware/rate_limit.py).
pub mod Window
pub mod Requests
mod Examples
