-- ===== src/Proxy/Serve/Kept.antt =====
-- What the frame loop of a tunnel keeps, and how it leaves the tunnel (internal/proxy/tunnel.go).
use reverse_http.Prelude.{◌≡◌, refl, Bool, Option, none, some, List, if_cases, nat_eq, Bytes}
use reverse_http.Prelude.Table.{lookup, insert}
use reverse_http.Prelude.Decimal.{atoi}
use reverse_http.H2.Errors.{Err}
use reverse_http.H2.Conn.{Conn}
use reverse_http.H2.Conn.Decode.{DecodedHeaders}
use reverse_http.H2.Stream.{Stream}
use reverse_http.H2.Writer.{Field}
use reverse_http.Proxy.Tunnel.{ClientStream, Worker, deliver_headers}
use reverse_http.Proxy.Serve.{
  Session, Ending, running, returned, deliver_response, delivered, ends_body, at,
}
use reverse_http.Proxy.Serve.Grown.{Grown, same-Grown}
use reverse_http.Proxy.Serve.Changes.{close_stream-Grown, submitted-Grown}
use reverse_http.Proxy.Serve.Matched.{Matched, conn-Matched, client-Matched, delivered-Settled}
use reverse_http.Proxy.Serve.Teardown.{Released}

module _ {D : Type 0} (decode : D → Bytes → D × List Field × Bool) where
  abbrev Kept : Session D × Option Err → Type 0
  Kept r = Matched r.0.worker

  ends_body-Grown : (d : DecodedHeaders) (c : Conn) → Grown c (ends_body d c)
  ends_body-Grown d c =
      if_cases (Grown c) d.end_stream (λ _. close_stream-Grown c d.stream_id)
        λ _. same-Grown c c refl

  delivered-Matched :
      (d : DecodedHeaders) (s : Session D) (o : Option ClientStream)
      → lookup d.stream_id s.worker.streams ≡ o
      → Matched s.worker
      → Matched (delivered decode d s o).worker
  delivered-Matched d s none at m = conn-Matched s.worker _ (submitted-Grown s.worker.conn _) m
  delivered-Matched d s (some cs) at m =
      let cs' = deliver_headers (atoi d.scratch.status) d.scratch.header cs in
      conn-Matched (record s.worker { streams = insert d.stream_id cs' s.worker.streams }) _
        (ends_body-Grown d s.worker.conn)
        (client-Matched s.worker d.stream_id cs cs' at
          (λ b _. delivered-Settled (atoi d.scratch.status) d.scratch.header cs b) m)

  pub deliver-Matched :
      (d : DecodedHeaders) (s : Session D)
      → Matched s.worker
      → Matched (deliver_response decode d s).worker
  unfolding deliver_response
  deliver-Matched d s m = delivered-Matched d s (lookup d.stream_id s.worker.streams) refl m

  -- While the loop runs the streams are matched; once it has returned, the tunnel is released.
  abbrev pub Outcome : Session D × Ending → Type 0
  Outcome (s, running) = Matched s.worker
  Outcome (s, returned err) = Released s
