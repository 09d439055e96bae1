-- ===== src/Proxy/Pump.antt =====
-- internal/proxy/forward.go: `streamRequestBody`, which sends the body of a public request to the
-- worker. The body is the sequence of answers of its `Read`.
pub mod Chunks
pub mod Whole
use reverse_http.Prelude.{
  ℕ, zero, suc, Bool, true, false, Option, none, some, List, [], ◌∷◌, ◌++◌, length, take, drop,
  Bytes,
}
use reverse_http.Prelude.Int.{ℤ, pos, pos_part, int32}
use reverse_http.H2.Errors.{Err}
use reverse_http.Worker.Link.{Link}
use reverse_http.Worker.Response.{Outcome, returns, blocks, out_of_fuel}

-- A round of the outer loop: the worker is found detached, or `Read` gives bytes with no error,
-- with io.EOF or with another error.
pub data Round : Type 0 where
  detached : Round
  more : Bytes → Round
  ends : Bytes → Round
  breaks : Bytes → Round

-- How the pump stops; `read_failed` goes with RST_STREAM(CANCEL).
pub data Stop : Type 0 where
  finished worker_detached conn_dead read_failed : Stop
  sending : Err → Stop

module _ (link : Link) where
  open link use {State, send_data}

  abbrev pub Sent : Type 0
  Sent = Outcome (State × Option Stop)

  abbrev pub chunk_out : (State → Bytes → Sent) → Bytes → State × Option Err → Sent
  chunk_out next rest (s, some e) = returns (s, some (sending e))
  chunk_out next rest (s, none) = next s rest

  abbrev pub granted : (State → Bytes → Sent) → Bytes → Option (State × ℤ × Bool) → Sent
  granted next p none = blocks
  granted next p (some (s, got, true)) = returns (s, some conn_dead)
  granted next p (some (s, got, false)) =
      chunk_out next (drop (pos_part got) p) (send_data s (take (pos_part got) p) false)

  -- The inner loop, over what is left of `buf[:n]`.
  unfoldable pub send_all : ℕ → State → Bytes → Sent
  send_all zero s p = out_of_fuel
  send_all (suc fuel) s [] = returns (s, none)
  send_all (suc fuel) s (b ∷ p) =
      granted (send_all fuel) (b ∷ p) (link.reserve s (int32 (pos (length (b ∷ p)))))

  abbrev pub last_frame : State × Option Err → State × Stop
  last_frame (s, some e) = (s, sending e)
  last_frame (s, none) = (s, finished)

  abbrev pub after : (State → Outcome (State × Stop)) → Sent → Outcome (State × Stop)
  after next (returns (s, none)) = next s
  after next (returns (s, some stop)) = returns (s, stop)
  after next blocks = blocks
  after next out_of_fuel = out_of_fuel

  unfoldable pub stream_request_body : List Round → State → Outcome (State × Stop)
  unfolding send_all
  stream_request_body [] s = blocks
  stream_request_body (detached ∷ rounds) s = returns (s, worker_detached)
  stream_request_body (more p ∷ rounds) s =
      after (stream_request_body rounds) (send_all (suc (length p)) s p)
  stream_request_body (ends p ∷ rounds) s =
      after (λ v. returns (last_frame (send_data v [] true))) (send_all (suc (length p)) s p)
  stream_request_body (breaks p ∷ rounds) s =
      after (λ v. returns (v, read_failed)) (send_all (suc (length p)) s p)
