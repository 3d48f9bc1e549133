-- ===== src/Party.antt =====
-- apps/api/src/modules/core/party/party.service.ts, the domain service of parties.
pub mod Fields
pub mod Subtypes
pub mod Results
pub mod Draft
pub mod Create
pub mod Search
pub mod Roles
pub mod Contacts
pub mod Calls
pub mod Sound
