-- ===== src/Frame.antt =====
-- The process frame: frame/master.cpp, frame/tools.cpp, common/log.cpp and include/common.h.
pub mod Log
pub mod Message
pub mod Processes
pub mod Serve
pub mod Main
pub mod Threads
