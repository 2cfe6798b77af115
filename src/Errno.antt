-- ===== src/Errno.antt =====
-- The negative error codes that the driver distinguishes or returns; a result of 0 is `none` of
-- `Option Errno`.
pub data Errno : Type 0 where
  enoent eio eagain enomem ebusy enodev einval epipe etime eproto eoverflow : Errno
  eilseq econnreset eshutdown etimedout eremoteio other : Errno
