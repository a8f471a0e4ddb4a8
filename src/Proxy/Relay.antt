-- ===== src/Proxy/Relay.antt =====
-- The agent's side of the stdio proxy with paired actions, `agentToUpstream` of
-- internal/proxy/stdio.go: one step for each line that the agent sends.
pub mod State
pub mod Refuse
pub mod Send
pub mod Line
pub mod Kept
pub mod Answered
pub mod Sent
pub mod Outcomes
pub mod Exact
pub mod Delivered
pub mod Keeping
pub mod Failed
pub mod Response
pub mod Withheld
mod Fixtures
mod Tests
mod AnswerTests
