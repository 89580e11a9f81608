-- ===== src/PageMap.antt =====
-- The page maps of src/pagemap.hpp, and the interface through which the page heap uses the one
-- that `MapSelector` picks.
pub mod Three
pub mod Interface
