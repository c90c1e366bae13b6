-- ===== src/RotateToken.antt =====
-- daemon/workers/rotate_token.py, by its parts.
pub mod Rotation
pub mod Guarded
