-- ===== src/PatronLink.antt =====
-- The sign-ins of "Link Patreon" in progress: src/patron-link/patron-link.state.ts.
-- Counter, State, Flow and Code hold the code, Run its operations as one trace, the others what they keep.
pub mod Counter
pub mod State
pub mod Flow
pub mod Code
pub mod Run
pub mod Bounds
pub mod CounterCalls
pub mod RateLimit
pub mod Tickets
pub mod FlowOrigins
pub mod Flows
pub mod Codes
mod Tests
