-- ===== src/Worker/Link.antt =====
-- What a response writer uses of its connection: the synchronous sends of internal/h2/writer.go and
-- `Reserve` of internal/h2/flow.go, with what it may rely on.
use reverse_http.Prelude.{ℕ, ◌≡◌, Bool, false, Option, none, some, List, [], ◌∷◌, ◌++◌, Bytes}
use reverse_http.Prelude.Int.{ℤ, pos, ◌≤ℤ◌, ◌<ℤ◌}
use reverse_http.H2.Errors.{Err}
use reverse_http.H2.Writer.{Header, Intent}

-- `log` has the HEADERS and DATA intents of the stream that the writer has put on the wire. A send that fails leaves it
-- as it was. `reserve` is `none` where the call never returns.
pub record Link : Type 1 where
  pub State : Type 0
  pub id : ℕ
  pub log : State → List Intent
  pub max_frame_size : State → ℕ
  pub send_response_headers : State → ℕ → Header → Bool → State × Option Err
  pub send_data : State → Bytes → Bool → State × Option Err
  pub reserve : State → ℤ → Option (State × ℤ × Bool)
  pub headers_sent :
      (s : State) (status : ℕ) (header : Header) (end_stream : Bool)
      → (send_response_headers s status header end_stream).1 ≡ none
      → log (send_response_headers s status header end_stream).0
        ≡ log s ++ Intent.resp_headers id status header end_stream ∷ []
  pub headers_lost :
      (s : State) (status : ℕ) (header : Header) (end_stream : Bool) (e : Err)
      → (send_response_headers s status header end_stream).1 ≡ some e
      → log (send_response_headers s status header end_stream).0 ≡ log s
  pub data_sent :
      (s : State) (bytes : Bytes) (end_stream : Bool)
      → (send_data s bytes end_stream).1 ≡ none
      → log (send_data s bytes end_stream).0 ≡ log s ++ Intent.body id bytes end_stream ∷ []
  pub data_lost :
      (s : State) (bytes : Bytes) (end_stream : Bool) (e : Err)
      → (send_data s bytes end_stream).1 ≡ some e
      → log (send_data s bytes end_stream).0 ≡ log s
  pub reserve_log :
      (s s' : State) (want got : ℤ) (dead : Bool)
      → reserve s want ≡ some (s', got, dead)
      → log s' ≡ log s
  pub reserve_grant :
      (s s' : State) (want got : ℤ)
      → pos 0 <ℤ want
      → reserve s want ≡ some (s', got, false)
      → (pos 0 <ℤ got) × (got ≤ℤ want)
