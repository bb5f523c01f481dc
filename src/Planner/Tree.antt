-- ===== src/Planner/Tree.antt =====
-- resource/planner/c++/scheduled_point_tree.cpp, mintime_resource_tree.cpp: the searches in the binary trees,
-- whose insertion and removal are those of the tree library.
pub mod State
pub mod Mintime
pub mod Arithmetic
pub mod Search
