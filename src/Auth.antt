-- ===== src/Auth.antt =====
-- The end users' accounts of a project (pgforge/authusers.go and pgforge/authmfa.go), and the
-- tokens of emailed links (pgforge/email.go and pgforge/oauth.go).
pub mod Accounts
pub mod Links
pub mod Factors
pub mod OneTime
pub mod SignIn
pub mod Admin
mod Bans
mod Emails
mod Rows
mod Handlers
mod Calls
mod Settings
mod LinkTokens
mod Limits
mod Password
mod Enrolment
mod Attempts
mod Requests
mod Tests
