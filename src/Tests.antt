-- ===== src/Tests.antt =====
-- Concrete data, and the theorems at inputs that meet their hypotheses.
mod Server
mod Devices
mod Limits
mod MailCode
mod Cors
mod Login
mod Endpoint
mod Import
mod Apps
mod Jobs
mod Programs
mod Events
mod Refresh
mod Invoices
