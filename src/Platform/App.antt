-- ===== src/Platform/App.antt =====
-- The state of `App` in internal/platform/app.go over the memory repositories, and the calls that
-- every operation makes: the clock, the publisher, the notifier and the repositories. An operation
-- takes the state to a result and a state, since what was written before an error stays written.
-- The locks are left out: an operation runs to its end before the next one starts.
pub mod State
pub mod Repositories
