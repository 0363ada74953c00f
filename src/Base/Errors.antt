-- ===== src/Base/Errors.antt =====
-- `RebuildError` of src/common.h.

pub data RebuildError : Type 0 where
  ok : RebuildError
  error_io : RebuildError
  error_memory : RebuildError
  error_parse : RebuildError
  error_exec : RebuildError
  error_hash : RebuildError
  error_trace : RebuildError
