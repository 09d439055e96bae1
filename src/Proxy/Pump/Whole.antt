-- ===== src/Proxy/Pump/Whole.antt =====
-- What `streamRequestBody` puts on the wire (internal/proxy/forward.go).
use reverse_http.Prelude.{◌<◌, ◌^◌, ◌≡◌, Bool, true, false, List, [], ◌∷◌, ◌++◌, length, Bytes, All}
use reverse_http.H2.Writer.{Intent}
use reverse_http.Proxy.Pump.{Round, detached, more, ends, breaks, Stop}
use reverse_http.Worker.Link.{Link}
use reverse_http.Worker.Response.Shape.{body_bytes}
use reverse_http.Proxy.Pump.Chunks.{IsData, is_finished}

-- The bytes that `Read` gives until the pump stops.
pub given : List Round → Bytes
given [] = []
given (detached ∷ rounds) = []
given (more p ∷ rounds) = p ++ given rounds
given (ends p ∷ rounds) = p
given (breaks p ∷ rounds) = p

-- A buffer has fewer than 2^31 bytes.
abbrev pub Short : Round → Type 0
Short (more p) = length p < 2 ^ 31
Short (ends p) = length p < 2 ^ 31
Short (breaks p) = length p < 2 ^ 31
Short detached = Unit

module _ (link : Link) where
  open link use {State, log, send_data}

  -- The last frame of a body that has been sent to its end.
  abbrev pub ending : Bool → List Intent
  ending true = Intent.body link.id [] true ∷ []
  ending false = []

  -- What the pump has done with `bytes`: a first part of them is on the wire, all of them if it
  -- finished, in DATA frames without END_STREAM; then, if it finished, comes the one that has it.
  pub record Pumped (s : State) (bytes : Bytes) (r : State × Stop) : Type 0 where
    pub sent : Bytes
    pub unsent : Bytes
    pub split : sent ++ unsent ≡ bytes
    pub on_wire : body_bytes (log r.0) ≡ body_bytes (log s) ++ sent
    pub whole : is_finished r.1 ≡ true → unsent ≡ []
    pub frames : List Intent
    pub plain : All (IsData link.id) frames
    pub closed : log r.0 ≡ log s ++ (frames ++ ending (is_finished r.1))
