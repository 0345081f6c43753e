-- ===== src/Errc.antt =====
-- The error conditions of `std::errc` that the sources of snowy raise themselves.
pub data Errc : Type 0 where
  operation_canceled broken_pipe timed_out io_error message_size operation_not_supported : Errc
