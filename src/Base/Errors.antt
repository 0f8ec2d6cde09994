-- ===== src/Base/Errors.antt =====
-- The error numbers that the modelled functions return (include/errno.h), and what a C function
-- that returns 0 or an error number gives back.
pub data Errno : Type 0 where
  eperm enoent ebadf eagain enomem einval emfile esrch efault eintr enotty enxio enodev epipe :
      Errno

pub data Status : Type 0 where
  ok : Status
  err : Errno → Status
