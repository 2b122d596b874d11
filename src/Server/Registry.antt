-- ===== src/Server/Registry.antt =====
-- sdk/server/src/registry.cpp with server/registry.hpp: the registries of tools, prompts, resources
-- and resource templates. Handlers are functions, `none` an empty one; the schema validator is an
-- argument.
pub mod Names
pub mod Catalog
pub mod Listing
pub mod Tools
pub mod Calls
pub mod Others
pub mod Handlers
mod Tests
