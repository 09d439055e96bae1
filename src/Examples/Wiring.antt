-- ===== src/Examples/Wiring.antt =====
-- An instance of the worker's stream over writer and flow control: writer.go, stream.go,
-- internal/h2/writer.go, internal/h2/flow.go.
use reverse_http.Prelude.{◌<◌, ◌^◌, refl, false, none, [], ◌∷◌, arith, codes}
use reverse_http.Prelude.Int.{pos}
use reverse_http.H2.Errors.{no_error}
use reverse_http.H2.Writer.{Framer, Intent, start_writer}
use reverse_http.H2.Writer.Headers.{common_lower_names-Lowered}
use reverse_http.Worker.Response.Loop
use reverse_http.Worker.Response.Ending.{sets_header, writes, flushes, offered_in}
use reverse_http.Worker.Serve.{Request, Run, serve_stream}
use reverse_http.Worker.Wired.{Shared, submits, takes, grows_conn, grows_stream}
use reverse_http.Worker.Wired.Valid.{Valid}
use reverse_http.Worker.Wired.Served.{Wrote, wired, serve_stream-Wrote}

abbrev accepting : Framer
accepting = record { write = λ xs x. none }

-- The window of the stream has five bytes; the peer adds three, and then as many as are needed, while
-- stream 3 has its own frames queued.
abbrev narrow : Shared 1
narrow = record {
  writer = start_writer;
  credit = record {
    cond = none;
    conn_send_window = pos 100;
    peer_init_window = pos 5;
    dead = false;
  };
  window = pos 5;
  max_frame = 16384;
  put = [];
  schedule =
      (submits (Intent.body 3 (codes "other") false) refl ∷ [])
      ∷ []
      ∷ []
      ∷ (takes ∷ grows_stream (pos 3) ∷ [])
      ∷ (submits (Intent.rst_stream 3 no_error) refl ∷ grows_conn (pos 7) ∷ [])
      ∷ (grows_stream (pos 50) ∷ [])
      ∷ [];
}

narrow-Valid : Valid narrow
narrow-Valid = record {
  ready = record {
    names = common_lower_names-Lowered;
    foreign = tt;
    short = omega arith;
    excused = λ h. cc;
  };
  shown = refl;
  conn_range = (omega arith, omega arith);
  window_range = (omega arith, omega arith);
}

abbrev greeting : Run
greeting = record {
  calls =
      sets_header ((codes "Content-Length", codes "12" ∷ []) ∷ [])
      ∷ writes (codes "hello ")
      ∷ flushes
      ∷ writes (codes "world!")
      ∷ [];
  panics = false;
}

abbrev get_root : Request
get_root = record { is_head = false; path = codes "/"; data_done = false }

greeting_offered : offered_in greeting.calls < 2 ^ 63
unfolding offered_in
greeting_offered = omega arith

serve_stream-Wrote_example :
    Loop.Ends
      (Wrote accepting 1 7 false)
      (serve_stream (wired accepting 1 7) (λ u. greeting) get_root (narrow, narrow-Valid))
serve_stream-Wrote_example =
    serve_stream-Wrote accepting 1 7 (λ u. greeting) get_root narrow narrow-Valid refl
      λ u. ((omega arith, (omega arith, (omega arith, (omega arith, tt)))), greeting_offered)
