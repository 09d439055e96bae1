-- ===== src/Proxy/Relay.antt =====
-- internal/proxy/forward.go: `forward`, from the choice of a worker to the end of the relayed
-- response. What happens on other goroutines while the forwarder waits is an argument.
pub mod Answered
pub mod Spoken
pub mod Whole
use reverse_http.Prelude.{
  ℕ, ◌+◌, ◌-◌, ◌^◌, Bool, true, false, not, ◌&&◌, ◌||◌, Option, none, some, List, [], ◌∷◌, ◌++◌,
  ltb, leb, length, if◌then◌else◌, Bytes, codes, ◌==◌, nat_eq, bytes_eq, bytes_beq,
}
use reverse_http.Prelude.Int.{ℤ, pos, negsuc}
use reverse_http.Prelude.Table.{lookup}
use reverse_http.H2.Errors.{Err, cancel}
use reverse_http.H2.Flow.{initial_stream_window}
use reverse_http.H2.Conn.{submitted}
use reverse_http.H2.Writer.{Header, Intent}
use reverse_http.Proxy.Forward.{build_forwarded_header, add_all}
use reverse_http.Proxy.Tunnel.{
  ClientStream, new_client, Worker, OpenErr, draining, saturated, sending, Opened, opened, refused,
  open_stream, finish_forward,
}

-- http.Request: `content_length` is negative where it is not known.
pub data ReqBody : Type 0 where
  nil no_body stream : ReqBody

pub record Request : Type 0 where
  pub method : Bytes
  pub host : Bytes
  pub url_host : Bytes
  pub request_uri : Bytes
  pub over_tls : Bool
  pub header : Header
  pub body : ReqBody
  pub content_length : ℤ

abbrev pub is_zero : ℤ → Bool
is_zero (pos n) = n == 0
is_zero (negsuc n) = false

abbrev pub body_empty : Request → Bool
body_empty req = elim req.body [ nil ↦ true | no_body ↦ true | stream ↦ is_zero req.content_length ]

abbrev pub or_else : Bytes → Bytes → Bytes
or_else [] other = other
or_else (b ∷ s) other = b ∷ s

-- The arguments of SendRequestHeaders.
unfoldable pub request_headers : Request → ℕ → Intent
request_headers req id =
    Intent.req_headers id req.method (if req.over_tls then codes "https" else codes "http")
      (or_else req.host req.url_host) (or_else req.request_uri (codes "/"))
      (build_forwarded_header req.header) (body_empty req)

-- Why an error page is sent.
pub data Cause : Type 0 where
  no_worker : Cause
  open_failed : OpenErr → Cause
  disconnected : Cause
  stream_failed : Err → Cause

-- What is done to the public ResponseWriter: http.Error, WriteHeader with the header at that time,
-- Write and Flush.
pub data Reply : Type 0 where
  error_page : ℕ → Cause → Reply
  head : ℤ → Header → Reply
  chunk : Bytes → Reply
  flushed : Reply

-- The worker that was picked, its count of requests in flight, and what the public side was sent.
pub record Gate : Type 0 where
  pub worker : Worker
  pub in_flight : ℕ
  pub reply : List Reply

abbrev pub replied : Gate → Reply → Gate
replied g r = record g { reply = g.reply ++ r ∷ [] }

abbrev pub reset_stream : ℕ → Gate → Gate
reset_stream id g = record g {
  worker = record g.worker { conn = submitted g.worker.conn (Intent.rst_stream id cancel) };
}

-- The select of waitForResponseHeaders: respCh, the request's context, or the worker's shutdownCh.
pub data Waking : Type 0 where
  responded cancelled detached : Waking

-- What the relay of the body meets: bytes from `Read`, with whether the public side takes them; its
-- io.EOF or another error; or the end of the request's context.
pub data Relaying : Type 0 where
  gives : Bytes → Bool → Relaying
  ends : Option Err → Relaying
  context_ends : Relaying

-- The surroundings of a forward: whether the selector picks a worker, what SendRequestHeaders
-- answers, what becomes of the tunnel until the select is over and then until the response is relayed,
-- how the select ends, whether the pump of the request body comes to its end, and the public side.
pub record Scene : Type 0 where
  pub picks : Bool
  pub send : Intent → Option Err
  pub until_woken : Worker → Worker
  pub waking : Waking
  pub until_relayed : Worker → Worker
  pub relaying : List Relaying
  pub pump_ends : Bool
  pub can_flush : Bool
  pub preset : Header

-- How a call ends; `blocks` never returns.
pub data Result : Type 0 where
  returns panics blocks : Gate → Result

abbrev pub open_forward : Request → Scene → Worker → Worker × Opened
open_forward req e w =
    open_stream (λ id. e.send (request_headers req id)) (initial_stream_window w.conn.send) w

abbrev pub open_status : OpenErr → ℕ
open_status draining = 503
open_status saturated = 503
open_status (sending err) = 502

-- The receive from bodyErrCh.
abbrev pub pumped : Request → Scene → Bool
pumped req e = body_empty req || e.pump_ends

-- The client stream that the forwarder holds.
abbrev pub held : Option ClientStream → ClientStream
held none = new_client
held (some cs) = cs

-- The response header is added to what the ResponseWriter has.
unfoldable pub relay_header : Header → Header → Header
relay_header [] h = h
relay_header ((k, vv) ∷ resp) h = relay_header resp (add_all k vv h)

abbrev pub relay_status : ℤ → ℤ
relay_status z = if is_zero z then pos 502 else z

-- net/http panics on a status code outside of 100..999.
abbrev pub is_status : ℤ → Bool
is_status (pos n) = leb 100 n && leb n 999
is_status (negsuc n) = false

abbrev pub flush_if : Bool → Gate → Gate
flush_if b g = if b then replied g flushed else g

-- The loop of writeResponse, which blocks where `Read` gives no further answer; `watched` tells
-- that the watcher of the context has not run.
unfoldable pub relay_body : ℕ → Bool → Bool → List Relaying → Gate → Result
unfolding submitted
relay_body id can_flush watched [] g = blocks g
relay_body id can_flush watched (context_ends ∷ rs) g =
    relay_body id can_flush false rs (if watched then reset_stream id g else g)
relay_body id can_flush watched (gives [] takes ∷ rs) g = relay_body id can_flush watched rs g
relay_body id can_flush watched (gives (b ∷ p) true ∷ rs) g =
    relay_body id can_flush watched rs (flush_if can_flush (replied g (chunk (b ∷ p))))
relay_body id can_flush watched (gives (b ∷ p) false ∷ rs) g =
    returns (reset_stream id (replied g (chunk (b ∷ p))))
relay_body id can_flush watched (ends err ∷ rs) g = returns g

unfoldable pub write_response : ℕ → Scene → ClientStream → Gate → Result
unfolding relay_body relay_header
write_response id e cs g =
    if is_status (relay_status cs.resp_status)
    then relay_body id e.can_flush true e.relaying
        (replied g (head (relay_status cs.resp_status) (relay_header cs.resp_header e.preset)))
    else panics g

abbrev pub after_pump : Request → Scene → Result → Result
after_pump req e (returns g) = if pumped req e then returns g else blocks g
after_pump req e (panics g) = panics g
after_pump req e (blocks g) = blocks g

abbrev pub elsewhere : (Worker → Worker) → Gate → Gate
elsewhere f g = record g { worker = f g.worker }

abbrev pub if_answered : ℕ → Scene → Gate → ClientStream → Option Err → Result
if_answered id e g cs (some err) = returns (replied g (error_page 502 (stream_failed err)))
if_answered id e g cs none = write_response id e cs (elsewhere e.until_relayed g)

-- waitForResponseHeaders and writeResponse; every way that returns has received from bodyErrCh.
unfoldable pub respond : ℕ → Scene → Gate → Waking → Result
unfolding write_response submitted
respond id e g responded =
    let cs = held (lookup id g.worker.streams) in if_answered id e g cs cs.resp_err
respond id e g cancelled = returns (reset_stream id g)
respond id e g detached = returns (replied g (error_page 502 disconnected))

-- The deferred calls of `forward`, which run on a panic as well.
abbrev pub leave : Gate → Gate
leave g = record g { in_flight = g.in_flight - 1 }

abbrev pub let_go : ℕ → Gate → Gate
let_go id g = leave (record g { worker = finish_forward id g.worker })

abbrev pub deferred : ℕ → Result → Result
deferred id (returns g) = returns (let_go id g)
deferred id (panics g) = panics (let_go id g)
deferred id (blocks g) = blocks g

abbrev pub forwarded : Request → Scene → Gate → Worker × Opened → Result
forwarded req e g (w, refused err) =
    returns
      (leave (replied (record g { worker = w }) (error_page (open_status err) (open_failed err))))
forwarded req e g (w, opened id) =
    let g = elsewhere e.until_woken (record g { worker = w }) in
    deferred id (after_pump req e (respond id e g e.waking))

unfoldable pub forward : Request → Scene → Gate → Result
unfolding respond request_headers
forward req e g =
    if not e.picks
    then returns (replied g (error_page 503 no_worker))
    else (let g = record g { in_flight = g.in_flight + 1 } in
        forwarded req e g (open_forward req e g.worker))
