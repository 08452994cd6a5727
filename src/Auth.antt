-- ===== src/Auth.antt =====
-- src/auth: sign-in, its limits, the devices of a member, and the guards.
pub mod Keys
pub mod Limits
pub mod Device
pub mod Directory
pub mod Payload
pub mod Token
pub mod Login
pub mod Refresh
pub mod TmpPassword
pub mod SignIn
pub mod Outcomes
pub mod Temporary
pub mod Session
pub mod Legacy
pub mod RefreshEndpoint
pub mod Endpoint
pub mod Admission
pub mod Manage
pub mod TmpEndpoint
