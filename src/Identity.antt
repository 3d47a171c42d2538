-- ===== src/Identity.antt =====
-- Callers, resources and credentials (internal/domain/identity), and the authorizer that every
-- service asks (internal/app/authz/authorizer.go). A nil `*Subject` or `*Resource` is `none`, and
-- a nil error is `none`. `Subject.Metadata` is read by no code here and is left out.
pub mod Subject
pub mod Authorizer
pub mod Credentials
pub mod Access
mod Tests
