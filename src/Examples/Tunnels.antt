-- ===== src/Examples/Tunnels.antt =====
-- Instances for the tunnels and the forwards of a proxy: internal/proxy.
use reverse_http.Prelude.{
  ◌≡◌, refl, Bool, true, false, not, ◌&&◌, none, some, List, [], ◌∷◌, codes, Bytes, ◌==◌, nat_eq,
}
use reverse_http.Prelude.Int.{ℤ, pos}
use reverse_http.Prelude.Decimal.{atoi}
use reverse_http.Prelude.Table.{lookup, insert}
use reverse_http.H2.Conn.{next_stream_id, add_to_registry}
use reverse_http.H2.Conn.Decode.{DecodedHeaders, no_scratch}
use reverse_http.H2.Errors.{conn_closed}
use reverse_http.H2.Writer.{Field}
use reverse_http.Proxy.Registry.{
  Registry, Step, Move, Hook, moves, arrives, shuts, serving, rejected, run, new_registry,
  accept_done, keep, available_workers,
}
use reverse_http.Proxy.Registry.Order.{listed_in}
use reverse_http.Proxy.Registry.Attached.{Attached}
use reverse_http.Proxy.Registry.Runs.{run-Attached}
use reverse_http.Proxy.Tunnel.{Worker, open_stream, deliver_headers}
use reverse_http.Proxy.Tunnel.Ids.{attached}
use reverse_http.Worker.Frames.{settings, headers, rst_stream}
use reverse_http.Proxy.Serve.{
  Round, Late, frame, breaks, opens, removes, deregisters, Session, deliver_response,
}
use reverse_http.Proxy.Serve.Matched.{Matched}
use reverse_http.Proxy.Relay.{
  Request, Scene, Gate, stream, responded, gives, ends, forward, Result, returns, panics, blocks,
}
use reverse_http.Proxy.Relay.Answered.{statuses}

-- Two tunnels are attached, and a third comes after Shutdown.
abbrev arrivals : List Step
arrivals =
    arrives
    ∷ arrives
    ∷ moves 1 Move.admits
    ∷ moves 1 Move.appends
    ∷ moves 0 Move.admits
    ∷ moves 0 Move.appends
    ∷ moves 0 Move.announces
    ∷ moves 1 Move.announces
    ∷ shuts
    ∷ arrives
    ∷ moves 2 Move.admits
    ∷ moves 2 Move.leaves
    ∷ []

abbrev two_attached : Registry
two_attached = record {
  workers = 1 ∷ 0 ∷ [];
  shut = true;
  snapped = false;
  accepts = 2;
  panicked = false;
  tunnels = serving ∷ serving ∷ rejected ∷ [];
  hooks = Hook.on_attach 0 ∷ Hook.on_attach 1 ∷ [];
  woken = [];
  order = 1 ∷ 0 ∷ [];
}

run-arrivals : run arrivals new_registry ≡ some two_attached
unfolding run accept_done
run-arrivals = refl

run-Attached_example :
    Attached two_attached
    × (available_workers (λ w. w == 0) two_attached
        ≡ keep (λ w. listed_in two_attached.tunnels w && not (w == 0)) two_attached.order)
run-Attached_example = run-Attached arrivals two_attached (λ w. w == 0) run-arrivals

-- A decoder that takes the block for the value of :status.
status_only : Bool → Bytes → Bool × List Field × Bool
status_only d block = (d, (codes ":status", block) ∷ [], false)

-- The settings, a response to a stream that was opened, a reset, and a lost connection.
-- What forwards do during the deferred calls: nothing, or one takes its stream off and one opens.
abbrev quiet : Late
quiet = record { after_mark = []; after_responses = []; after_bodies = []; after_goaway = [] }

abbrev busy : Late
busy = record {
  after_mark = [];
  after_responses = removes 3 ∷ [];
  after_bodies = deregisters 3 ∷ opens (λ id. some conn_closed) (pos 65535) ∷ [];
  after_goaway = [];
}

abbrev rounds : List Round
rounds =
    record {
      before = [];
      shut = false;
      meanwhile = opens (λ id. none) (pos 65535) ∷ [];
      answer = frame (settings false []);
      late = quiet;
    }
    ∷ record {
      before = opens (λ id. none) (pos 65535) ∷ [];
      shut = false;
      meanwhile = [];
      answer = frame (
          headers
            (record { id = 1; fragment = codes "200"; headers_ended = true; stream_ended = true }));
      late = quiet;
    }
    ∷ record {
      before = removes 1 ∷ [];
      shut = false;
      meanwhile = deregisters 1 ∷ [];
      answer = frame (rst_stream 3);
      late = quiet;
    }
    ∷ record { before = []; shut = false; meanwhile = []; answer = breaks conn_closed; late = busy }
    ∷ []

abbrev tunnel : Session Bool
tunnel = record { worker = attached; decoder = true; detached = false }

abbrev upload : Request
upload = record {
  method = codes "POST";
  host = codes "example.org";
  url_host = [];
  request_uri = codes "/a";
  over_tls = true;
  header = [];
  body = stream;
  content_length = pos 3;
}

-- The frame reader delivers the response of stream 1.
abbrev ok_headers : DecodedHeaders
ok_headers = record {
  scratch = record no_scratch { status = codes "200" };
  stream_id = 1;
  end_stream = false;
}

delivers : Worker → Worker
delivers w =
    (deliver_response status_only ok_headers
      (record { worker = w; decoder = true; detached = false })).worker

abbrev quiet_scene : Scene
quiet_scene = record {
  picks = true;
  send = λ i. none;
  until_woken = delivers;
  waking = responded;
  until_relayed = λ w. w;
  relaying = gives (codes "ok") true ∷ ends none ∷ [];
  pump_ends = true;
  can_flush = true;
  preset = [];
}

abbrev gate : Gate
gate = record { worker = attached; in_flight = 0; reply = [] }

abbrev codes_of : Result → List ℤ
codes_of (returns g) = statuses g.reply
codes_of (panics g) = []
codes_of (blocks g) = []

-- The status codes of that forward.
relayed_ok : codes_of (forward upload quiet_scene gate) ≡ pos 200 ∷ []
unfolding forward delivers deliver_response lookup insert deliver_headers atoi open_stream
    next_stream_id add_to_registry
relayed_ok = refl
