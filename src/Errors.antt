-- ===== src/Errors.antt =====
-- The exception classes of RangeError.h and RangeError.cpp, and of StreamIOError.h and
-- StreamIOError.cpp. Their base class `CException` is not in the repository.
pub mod Base
pub mod RangeError
pub mod StreamIoError
pub mod Reasons
