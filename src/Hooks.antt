-- ===== src/Hooks.antt =====
-- The way from a call of the program to the runtime: lib/common/space.cpp, lib/runtime/hooks.cpp,
-- lib/runtime/helper.cpp and dync_hook.
pub mod Space
pub mod Entry
pub mod Plans
pub mod Interpose
pub mod Process
pub mod Crossing
pub mod Endings
pub mod Marks
pub mod Lifetime
