-- ===== src/H2/Errors.antt =====
-- internal/h2/errors.go, with the errors that the frame loops and the response writer pass on.
use reverse_http.Prelude.{ℕ, ◌^◌, ◌-◌}

-- `transport` is an error of the connection below, by a number that tells such errors apart.
pub data Err : Type 0 where
  conn_closed cont_interleaved goaway stream_reset hpack_decode : Err
  ping_timeout alpn header_list_too_large bad_settings : Err
  transport : ℕ → Err

abbrev pub max_header_list_size : ℕ
max_header_list_size = 2 ^ 20

abbrev pub default_max_concurrent_streams : ℕ
default_max_concurrent_streams = 100

-- `^uint32(0)`
abbrev pub no_stream_limit : ℕ
no_stream_limit = 2 ^ 32 - 1

-- The HTTP/2 error codes in use, as golang.org/x/net/http2 numbers them.
pub data ErrCode : Type 0 where
  no_error protocol internal stream_closed cancel : ErrCode
  other : ℕ → ErrCode
