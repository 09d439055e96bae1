-- ===== src/Examples/Serving.antt =====
-- Instances for the worker's side: writer.go, stream.go and internal/h2/flow.go, internal/h2/writer.go.
use reverse_http.Prelude.{
  Bytes, ◌<◌, ◌^◌, ◌≡◌, refl, subst, Bool, true, false, Option, none, some, List, [], ◌∷◌, ◌++◌,
  arith, codes, All,
}
use reverse_http.Prelude.Int.{ℤ, pos, ◌≤ℤ◌, ◌<ℤ◌, ◌+ℤ◌, ◌-ℤ◌, min_ℤ, int32}
use reverse_http.H2.Errors.{Err}
use reverse_http.H2.Flow.{SendCredit, reserve, add_conn, waiting}
use reverse_http.H2.Flow.Wakeup.{Op, reserves, adds_conn, step, run, fresh, Blocked, no_lost_wakeup}
use reverse_http.H2.Flow.Budget.{Obeys, total_granted, total_credited, granted_within_budget}
use reverse_http.H2.Writer.{Intent}
use reverse_http.H2.Conn.{new_conn}
use reverse_http.H2.Writer.{Field}
use reverse_http.Proxy.Pump.{Round, more, ends}
use reverse_http.Worker.Frames.{Turn, window_update, headers, continuation, ping, serve}
use reverse_http.Worker.Frames.Always.{serve-Healthy, new-Healthy}
use reverse_http.Worker.Frames.Healthy.{Healthy}
use reverse_http.Worker.Link.{Link}
use reverse_http.Worker.Response.{new_writer, write, end_stream}
use reverse_http.Worker.Response.Loop
use reverse_http.Worker.Response.Shape.{body_bytes}
use reverse_http.Worker.Response.Sound.{fresh-Sound}
use reverse_http.Worker.Response.Calls.{WriteDone}
use reverse_http.Worker.Response.Writes.{write-WriteDone}
use reverse_http.Worker.Response.Closing.{Ended, end_stream-Ended}
use reverse_http.Worker.Response.Ending.{sets_header, writes, flushes, offered_in}
use reverse_http.Worker.Serve.{Request, Run, serve_stream}
use reverse_http.Worker.Serve.Verdicts.{Clean, serve_stream-Clean}

never_lost : {A : Type 0} (e : Err) → none ≡ some e → A
never_lost e h = cc

granted :
    (l l' : List Intent) (want got : ℤ) (dead : Bool)
    → Path
        (Option (List Intent × ℤ × Bool))
        (some (l, min_ℤ want (pos 5), false))
        (some (l', got, dead))
    → (l' ≡ l) × (min_ℤ want (pos 5) ≡ got)
granted l l' want got dead h = (cc, cc)

grant_in_range :
    (want got : ℤ) → pos 0 <ℤ want → min_ℤ want (pos 5) ≡ got → (pos 0 <ℤ got) × (got ≤ℤ want)
unfolding min_ℤ
grant_in_range want got w e = subst (λ g. (pos 0 <ℤ g) × (g ≤ℤ want)) e (ground (arith, w))

-- A connection that accepts every frame and grants up to five bytes at a time.
abbrev five_at_a_time : Link
five_at_a_time = record {
  State = List Intent;
  id = 1;
  log = λ s. s;
  max_frame_size = λ s. 16384;
  send_response_headers = λ s status header end_stream.
      (s ++ Intent.resp_headers 1 status header end_stream ∷ [], none);
  send_data = λ s bytes end_stream. (s ++ Intent.body 1 bytes end_stream ∷ [], none);
  reserve = λ s want. some (s, min_ℤ want (pos 5), false);
  headers_sent = λ s status header end_stream h. refl;
  headers_lost = λ s status header end_stream e h. never_lost e h;
  data_sent = λ s bytes end_stream h. refl;
  data_lost = λ s bytes end_stream e h. never_lost e h;
  reserve_log = λ s s' want got dead h. (granted s s' want got dead h).0;
  reserve_grant = λ s s' want got w h. grant_in_range want got w (granted s s' want got false h).1;
}

-- A handler that declares twelve bytes and writes them in two calls.
abbrev twelve : Run
twelve = record {
  calls =
      sets_header ((codes "Content-Length", codes "12" ∷ []) ∷ [])
      ∷ writes (codes "hello ")
      ∷ flushes
      ∷ writes (codes "world!")
      ∷ [];
  panics = false;
}

abbrev get_request : Request
get_request = record { is_head = false; path = codes "/a%20b?q=1"; data_done = true }

twelve_offered : offered_in twelve.calls < 2 ^ 63
unfolding offered_in
twelve_offered = omega arith

serve_stream-Clean_example :
    Loop.Ends
      (Clean five_at_a_time false)
      (serve_stream five_at_a_time (λ u. twelve) get_request [])
serve_stream-Clean_example =
    serve_stream-Clean five_at_a_time (λ u. twelve) get_request [] refl
      λ u. ((omega arith, (omega arith, (omega arith, (omega arith, tt)))), twelve_offered)

write-WriteDone_example :
    Loop.Ends
      (WriteDone five_at_a_time (body_bytes []) 12 (codes "hello world!"))
      (write five_at_a_time [] (new_writer false) (codes "hello world!"))
write-WriteDone_example =
    write-WriteDone five_at_a_time [] 0 (new_writer false) (codes "hello world!")
      (fresh-Sound false) (λ h. cc) (omega arith) (omega arith)

end_stream-Ended_example :
    Ended five_at_a_time [] (new_writer true) (end_stream five_at_a_time [] (new_writer true))
end_stream-Ended_example =
    end_stream-Ended five_at_a_time [] 0 (new_writer true) (fresh-Sound true) refl

-- Two streams wait, the peer raises the windows, and one of them goes on.
abbrev two_writers : List Op
two_writers =
    reserves 1 (pos 70000)
    ∷ reserves 3 (pos 10)
    ∷ adds_conn (pos 100)
    ∷ reserves 3 (pos 10)
    ∷ reserves 1 (pos 10)
    ∷ []

no_lost_wakeup_example :
    All (Blocked (run fresh two_writers)) (waiting (run fresh two_writers).credit.cond)
no_lost_wakeup_example = no_lost_wakeup two_writers

two_writers-Obeys : Obeys fresh two_writers
unfolding step reserve add_conn ◌+ℤ◌ ◌-ℤ◌ int32 min_ℤ
two_writers-Obeys = (
  omega arith,
  (omega arith, omega arith),
  (
    omega arith,
    (omega arith, omega arith),
    (
      omega arith,
      (omega arith, omega arith),
      (omega arith, (omega arith, omega arith), (omega arith, (omega arith, omega arith), tt)),
    ),
  ),
)

granted_within_budget_example :
    total_granted fresh two_writers ≤ℤ pos 65535 +ℤ total_credited two_writers
granted_within_budget_example = granted_within_budget two_writers two_writers-Obeys

abbrev some_credit : SendCredit
some_credit = record {
  cond = none;
  conn_send_window = pos 100;
  peer_init_window = pos 65535;
  dead = false;
}

-- A decoder that takes the block for the path.
abbrev path_only : Bool → Bytes → Bool × List Field × Bool
path_only d block = (d, (codes ":path", block) ∷ [], false)

-- The handler of the request ends before the last frame.
abbrev frames : List Turn
frames =
    record { before = []; meanwhile = []; frame = window_update 0 (pos 100) }
    ∷ record {
      before = [];
      meanwhile = [];
      frame =
          headers
            (record { id = 1; fragment = codes "/"; headers_ended = false; stream_ended = true });
    }
    ∷ record {
      before = [];
      meanwhile = [];
      frame = continuation 1 (record { fragment = codes "a"; headers_ended = true });
    }
    ∷ record { before = []; meanwhile = 1 ∷ []; frame = ping false 9 }
    ∷ []

serve-Healthy_example :
    Healthy (serve path_only frames (record { conn = new_conn; decoder = true; started = [] })).0
serve-Healthy_example =
    serve-Healthy path_only frames (record { conn = new_conn; decoder = true; started = [] })
      (tt, (omega arith, (omega arith, (tt, tt)))) (new-Healthy true)

-- A request body of two reads.
abbrev rounds : List Round
rounds = more (codes "hello ") ∷ ends (codes "world!") ∷ []
