-- ===== src/Openconfig.antt =====
-- The OpenConfig translators: src/xlate/openconfig/goldstone/xlate/openconfig.
pub mod Names
pub mod Interface
pub mod Handler
pub mod Objects
pub mod Channel
