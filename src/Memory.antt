-- ===== src/Memory.antt =====
-- The memory pool: libbase/MallocPool.cpp and libbase/MallocManager.cpp.
pub mod Pool
pub mod Manager
