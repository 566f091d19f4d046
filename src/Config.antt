-- ===== src/Config.antt =====
-- shared/config/config.hpp: the settings of the programs.
pub mod Reader
pub mod Settings
