-- ===== src/Lib.antt =====
-- A model of the reverse-http library (Go) and its properties.
--
-- A worker dials a proxy over TLS and then serves HTTP/2 requests on that connection; the proxy
-- accepts public requests and forwards each as a stream of some worker's connection. Both sides
-- share internal/h2.
--
-- Which file models what:
-- - Prelude: tests, lists, byte strings, integers with Go's wrap-around, and maps as association
--   lists, over the native numbers.
-- - H2.Flow (internal/h2/flow.go): `SendCredit`. One step is one method between lock and unlock;
--   `Reserve` is `reserve_round` up to a wait. Wakeup runs any interleaving of these steps.
-- - H2.Writer and H2.Names (internal/h2/writer.go, internal/h2/pools.go): the writer goroutine, its
--   queue and header encoding. The framer is a parameter; the encoder's input is recorded field by
--   field. Quiet, Awaited and Submitted relate the answer of `submit` to the frames on the wire.
-- - H2.Stream (internal/h2/stream.go): the body of a stream as a ring of pooled chunks.
-- - H2.Conn (internal/h2/conn.go): registry, drain, PING, settings, inbound DATA; H2.Conn.Decode has
--   the header blocks, with the HPACK decoder as a parameter.
-- - Worker.Link: what a response uses of its connection, as an interface; Worker.Response
--   (writer.go): the http.ResponseWriter over it; Worker.Serve and Worker.Uri (stream.go): a request
--   from its headers to the end of its response.
-- - Worker.Wired: the interface of Worker.Link filled by the writer and the flow control. What the
--   other goroutines do before a call or during a wait for credit is a portion of a schedule; while
--   a `submit` waits, the writer takes what is queued, and its shutdown comes between the calls.
-- - Worker.Frames (handler.go): the frame loop of a worker's connection over H2.Conn, whose requests
--   Worker.Serve serves. Handlers end, and take their streams off, between the steps of the loop.
-- - Worker.Pool (pool.go, connection.go): the slots of the pool with their goroutines, connections
--   and wait groups, and Shutdown. A step is the code between two points where a goroutine can wait.
--   A read deadline is a mark on the connection; the end of `serve` is a step that may come with or
--   without it. The loop that sets the deadlines is one step with the snapshot it runs over.
-- - Worker.Options (pool.go): NewConnectionPool and what it asks of its options.
-- - Proxy.Registry (internal/proxy/proxy.go): attach, detach, availableWorkers and Shutdown, with the
--   goroutines of the tunnels interleaved.
-- - Proxy.Serve (internal/proxy/tunnel.go): the frame loop of a tunnel and its teardown, with
--   forwarders opening and ending streams in between; Proxy.Relay (internal/proxy/forward.go): one
--   forward from the choice of a worker to the end of the response.
-- - Proxy.Tunnel (internal/proxy/worker.go), Proxy.Selector (internal/proxy/selector.go) and
--   Proxy.Forward and Proxy.Pump (internal/proxy/forward.go): opening streams, picking a worker, the
--   header of a forwarded request, and its body, over Worker.Link.
-- - Proxy.Adapter (proxy.go): the public names around internal/proxy, with its selectors and options.
-- - Examples: tests, and instances of the theorems.
--
-- How code becomes definitions: a struct is a record, a method a function on it; a method that takes
-- a lock is one step, and goroutines are sequences of steps. A uint32 or int32 that can wrap is
-- reduced where the code computes it. `sent`, `wire`, `announced` and `returned` are logs of what
-- a component hands on. Maps are association lists, whose order stands for that of `range`.
--
-- Fuel: the loops of `Write` and of `streamRequestBody` have fuel one above the bytes left, and each
-- round that goes on sends at least one; `itoa` has fuel above the number of digits. Calls that wait
-- for ever are a value, `blocks` or `waits`; over Worker.Wired that is a wait for credit that the
-- schedule does not end. The schedules of Worker.Pool and Proxy.Registry are lists
-- of steps, and a step that cannot happen gives `none`.
--
-- Not modelled: TLS, sockets and listeners, whose answers are choices of a schedule or arguments;
-- timers and deadlines, beyond the mark in Worker.Pool and the PING watchdog of H2.Conn; sync.Pool,
-- beyond buffers as handles; loggers; examples. In Proxy.Serve forwarders act between the deferred
-- calls of serveTunnel, and in Worker.Frames handlers between the steps of the loop; the log `sent`
-- has only the frames of the loop itself, and ShutdownWriter leaves no trace. In Proxy.Relay the two
-- removals at the end of a forward have nothing in between.
pub mod Prelude
pub mod H2
pub mod Worker
pub mod Proxy
mod Examples
