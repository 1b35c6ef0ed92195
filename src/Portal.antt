-- ===== src/Portal.antt =====
-- The portal for customers: src/lib/service-requests.ts and src/lib/portal-auth.ts.
pub mod Forms
pub mod Auth
