-- ===== src/Profile.antt =====
-- internal/profile: the multi-network store. Slug derives file stems from names, Disk has the files
-- and the faults that the environment may inject, Store the operations, Migrate the import of the
-- v0.1.x bundle.
pub mod Slug
pub mod Disk
pub mod Store
pub mod Migrate
pub mod Hoare
