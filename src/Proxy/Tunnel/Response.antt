-- ===== src/Proxy/Tunnel/Response.antt =====
-- The response of a forwarded request: the first event decides (internal/proxy/worker.go).
use reverse_http.Prelude.{◌≡◌, refl, true, none, some, List, [], ◌∷◌}
use reverse_http.Prelude.Int.{ℤ, pos}
use reverse_http.H2.Errors.{Err}
use reverse_http.H2.Writer.{Header}
use reverse_http.Proxy.Tunnel.{ClientStream, new_client, deliver_headers, fail}

-- What the frame reader tells a client stream.
pub data Event : Type 0 where
  headers : ℤ → Header → Event
  fails : Err → Event

pub notify : List Event → ClientStream → ClientStream
notify [] cs = cs
notify (headers status header ∷ es) cs = notify es (deliver_headers status header cs)
notify (fails err ∷ es) cs = notify es (fail err cs)

-- What the forwarder finds once respCh is closed.
abbrev pub outcome : Event → ClientStream
outcome (headers status header) = record {
  resp_err = none;
  resp_status = status;
  resp_header = header;
  closed = true;
}
outcome (fails err) = record {
  resp_err = some err;
  resp_status = pos 0;
  resp_header = [];
  closed = true;
}

notify_closed : (es : List Event) (e : Event) → notify es (outcome e) ≡ outcome e
unfolding notify deliver_headers fail
notify_closed [] e = refl
notify_closed (headers status header ∷ es) (headers s h) = notify_closed es (headers s h)
notify_closed (headers status header ∷ es) (fails err) = notify_closed es (fails err)
notify_closed (fails e ∷ es) (headers s h) = notify_closed es (headers s h)
notify_closed (fails e ∷ es) (fails err) = notify_closed es (fails err)

-- The first event of a stream settles its response for good: whatever HEADERS and failures follow,
-- the forwarder reads the status, the header and the error of the first.
pub first_event_decides : (e : Event) (es : List Event) → notify (e ∷ es) new_client ≡ outcome e
unfolding notify deliver_headers fail
first_event_decides (headers status header) es = notify_closed es (headers status header)
first_event_decides (fails err) es = notify_closed es (fails err)
