-- ===== src/Access/Laws.antt =====
-- What a tunnel request must meet to be accepted by the rules, stated without the code's tests:
-- wstunnel/src/tunnel/server/utils.rs, `filter`, `is_allowed` and `validate_tunnel`.
pub mod Grants
pub mod Chosen
