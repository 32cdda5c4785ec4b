-- ===== src/Subscription.antt =====
-- SubscriptionHandler.cpp and SubscriptionHandler.hpp.
pub mod State
pub mod Tables
pub mod Publishing
pub mod Removal
pub mod Registry
pub mod Worker
pub mod Threads
