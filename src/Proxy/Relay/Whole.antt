-- ===== src/Proxy/Relay/Whole.antt =====
-- What a forward does on each of its ways (internal/proxy/forward.go).
use reverse_http.Prelude.{ℕ, ◌≡◌, ◌⊎◌, true, false, none, [], ◌∷◌, nat_eq}
use reverse_http.Prelude.Int.{ℤ, pos}
use reverse_http.Prelude.Table.{lookup}
use reverse_http.Proxy.Tunnel.{
  ClientStream, Worker, OpenErr, draining, saturated, sending, Opened, opened, refused,
}
use reverse_http.Proxy.Serve.Matched.{Matched}
use reverse_http.Proxy.Relay.{
  Request, Gate, responded, Scene, Result, returns, panics, blocks, pumped, held, relay_status,
  is_status,
}
use reverse_http.Proxy.Relay.Answered.{Endless}
use reverse_http.Proxy.Relay.Spoken.{due, Spoke, Spoken}

-- The stream is gone from the tunnel.
abbrev pub Gone : ℕ → Worker → Type 0
Gone id w = (lookup id w.streams ≡ none) × (lookup id w.conn.streams ≡ none)

-- How a forward that has opened the stream `id`, which was settled as `cs`, ends.
abbrev pub Closed : Request → Scene → ClientStream → ℕ → Gate → Result → Type 0
Closed req e cs id g (returns v) =
    Spoke (due e.waking cs) g v × Gone id v.worker × (pumped req e ≡ true)
Closed req e cs id g (panics v) =
    Spoke [] g v
    × Gone id v.worker
    × (e.waking ≡ responded)
    × (is_status (relay_status cs.resp_status) ≡ false)
Closed req e cs id g (blocks v) =
    (pumped req e ≡ false) ⊎ ((e.waking ≡ responded) × Endless e.relaying)

-- The status code for a stream that could not be opened.
abbrev pub refusal : OpenErr → ℤ
refusal draining = pos 503
refusal saturated = pos 503
refusal (sending err) = pos 502

-- What `forward` does, by the answer of `openStream`, but for a full tunnel; `settled_as` is how the response of a stream
-- stands when the forwarder wakes.
abbrev pub Answer : Request → Scene → Gate → Worker × Opened → Result → Type 0
Answer req e g (w, opened id) r = Closed req e (held (lookup id (e.until_woken w).streams)) id g r
Answer req e g (w, refused saturated) r = Unit
Answer req e g (w, refused err) (returns v) = Spoke (refusal err ∷ []) g v × (v.worker ≡ w)
Answer req e g (w, refused err) r = ⊥
