-- ===== src/Machine/Created.antt =====
-- `thread_create` as a whole, with the lock that `allocate_tid` takes.
use os_pintos.Base.{List}
use os_pintos.Platform.{Platform}
use os_pintos.Kernel.{Kernel}
use os_pintos.Call.{Call}
