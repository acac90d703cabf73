-- ===== src/Utils.antt =====
-- utils/src: the wire format that the modules of the system share.
pub mod Buffer
pub mod Package
pub mod Dtp
pub mod Enums
