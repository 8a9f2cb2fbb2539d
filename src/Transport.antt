-- ===== src/Transport.antt =====
-- internal/transport: the interceptors, their order in `Dial`, and the streaming subscription.
pub mod Runtime
pub mod Interceptors
pub mod Backoff
pub mod Retry
pub mod Dial
pub mod Subscription
