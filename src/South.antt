-- ===== src/South.antt =====
-- The servers of the devices, under src/south.
pub mod Dpll
pub mod Gearbox
pub mod Tai
