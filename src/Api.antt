-- ===== src/Api.antt =====
-- What the API does beside HTTP (src/api).
pub mod ApprovalFlow
