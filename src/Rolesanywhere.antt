-- ===== src/Rolesanywhere.antt =====
-- Part of pkg/rolesanywhere: which certificate of a system store is used.
pub mod Match
pub mod Selector
