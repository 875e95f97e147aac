-- ===== src/Subscriber.antt =====
-- src/node/subscriber.rs: the events of the nodes and the subscriptions to them.
pub mod Events
pub mod Dropped
pub mod Published
pub mod Repeated
pub mod Scrape
pub mod Flushed
pub mod Plan
pub mod Differing
pub mod Planned
mod Tests
