-- ===== src/Worker/Serve/Verdicts.antt =====
-- How a request ends for the peer (stream.go).
use mathlib.Core.Bool.{true≢false}
use reverse_http.Prelude.{
  ℕ, ◌<◌, ◌^◌, ◌≡◌, refl, subst, sym, ap, ◌∙◌, ◌⊎◌, inl, inr, Bool, true, false, not, Option, none,
  some, List, [], ◌∷◌, ◌++◌, arith, if_cases, bytes_eq,
}
use reverse_http.H2.Errors.{Err, ErrCode, no_error, protocol}
use reverse_http.H2.Writer.{Intent}
use reverse_http.Worker.Link.{Link}
use reverse_http.Worker.Response.{
  ResponseWriter, WriteErr, sending, conn_dead, content_length, short_content_length, returns,
  blocks, out_of_fuel, Outcome, new_writer, is_set, latch, prepare, write_headers,
}
use reverse_http.Worker.Response.Shape.{
  interim, streaming, closed, phase, phase-nil, phase-append, body_bytes, Whole,
}
use reverse_http.Worker.Response.Sound.{Sound, fresh-Sound, prepare_status}
use reverse_http.Worker.Response.Loop.{Ends}
use reverse_http.Worker.Response.Closing.{Ended, end_stream-Ended, phase_of_Sound}
use reverse_http.Worker.Response.Ending.{offered_in, Short, SoundAt, handle-Sound}
use reverse_http.Worker.Uri.{Url}
use reverse_http.Worker.Serve.{
  Served, Request, Run, panicked, verdict, finish, recover, conclude, routed, serve_stream,
}
use reverse_http.Worker.Response.Closing.{false_of_negation}
use reverse_http.Worker.Uri.{parse_request_uri}

module _ (link : Link) where
  open link use {State, log}

  -- The frames form at most one response, never a malformed one. A completed response is closed and
  -- whole; a stream that is reset for an error has had no END_STREAM.
  pub record Clean (is_head : Bool) (r : Served State) : Type 0 where
    pub legal :
        (phase (log r.state) ≡ interim)
        ⊎ ((phase (log r.state) ≡ streaming) ⊎ (phase (log r.state) ≡ closed))
    pub complete : r.completed ≡ true → (phase (log r.state) ≡ closed) × Whole is_head (log r.state)
    pub reset_unended : phase (log r.state) ≡ closed → (r.resets ≡ []) ⊎ (r.resets ≡ no_error ∷ [])

module _ (link : Link) (is_head : Bool) where
  open link use {State, log}

  -- A response without END_STREAM that is not completed.
  open-Clean :
      (s : State) (rsp : ResponseWriter) (resets : List ErrCode)
      → (phase (log s) ≡ interim) ⊎ (phase (log s) ≡ streaming)
      → Clean link is_head
          (record { state = s; response = rsp; resets = resets; completed = false })
  open-Clean s rsp resets (inl i) = record {
    legal = inl i;
    complete = λ h. cc;
    reset_unended = λ h. cc;
  }
  open-Clean s rsp resets (inr i) = record {
    legal = inr (inl i);
    complete = λ h. cc;
    reset_unended = λ h. cc;
  }

  done-Clean :
      (s s' : State) (rsp : ResponseWriter) (resets : List ErrCode)
      → (resets ≡ []) ⊎ (resets ≡ no_error ∷ [])
      → (phase (log s') ≡ closed)
        × (body_bytes (log s') ≡ body_bytes (log s))
        × Whole is_head (log s')
      → Clean link is_head
          (record { state = s'; response = rsp; resets = resets; completed = true })
  done-Clean s s' rsp resets mild e = record {
    legal = inr (inr e.0);
    complete = λ _. (e.0, e.2);
    reset_unended = λ _. mild;
  }

  at_method :
      (rsp : ResponseWriter) (s s' : State)
      → rsp.is_head ≡ is_head
      → (phase (log s') ≡ closed)
        × (body_bytes (log s') ≡ body_bytes (log s))
        × Whole rsp.is_head (log s')
      → (phase (log s') ≡ closed)
        × (body_bytes (log s') ≡ body_bytes (log s))
        × Whole is_head (log s')
  at_method rsp s s' m e = (e.0, e.1, subst (λ h. Whole h (log s')) m e.2)

  verdict-Clean :
      (s : State) (rsp : ResponseWriter) (data_done : Bool)
      (r : State × ResponseWriter × Option WriteErr)
      → rsp.is_head ≡ is_head
      → Ended link s rsp r
      → Clean link is_head (verdict link data_done r)
  verdict-Clean s rsp true (s', rsp', none) m e =
      done-Clean s s' rsp' [] (inl refl) (at_method rsp s s' m (e.ended refl))
  verdict-Clean s rsp false (s', rsp', none) m e =
      done-Clean s s' rsp' (no_error ∷ []) (inr refl) (at_method rsp s s' m (e.ended refl))
  verdict-Clean s rsp data_done (s', rsp', some short_content_length) m e =
      open-Clean s' rsp' _ (e.unended _ refl)
  verdict-Clean s rsp data_done (s', rsp', some content_length) m e =
      open-Clean s' rsp' _ (e.unended _ refl)
  verdict-Clean s rsp data_done (s', rsp', some conn_dead) m e =
      open-Clean s' rsp' _ (e.unended _ refl)
  verdict-Clean s rsp data_done (s', rsp', some (sending x)) m e =
      open-Clean s' rsp' _ (e.unended _ refl)

  unset : (o : Option WriteErr) → is_set o ≡ false → o ≡ none
  unset none h = refl
  unset (some e) h = cc

  finish-Clean :
      (data_done : Bool) (s : State) (rsp : ResponseWriter) (offered : ℕ)
      → Sound (log s) offered rsp
      → rsp.is_head ≡ is_head
      → Clean link is_head (finish link data_done (s, rsp))
  unfolding finish
  finish-Clean data_done s rsp offered f m =
      if_cases (Clean link is_head) rsp.cl_violated
        (λ _. open-Clean s rsp _ (phase_of_Sound link f))
        λ _.
          if_cases (Clean link is_head) (is_set rsp.err)
            (λ _. open-Clean s rsp _ (phase_of_Sound link f))
            λ h.
              verdict-Clean s rsp data_done _ m (end_stream-Ended link s offered rsp f (unset _ h))

  -- The response to a panic: its last frame, if it goes out.
  closing-Clean :
      (s : State) (x : Intent) (v : ResponseWriter) (r : State × Option Err)
      → phase (log s) ≡ interim
      → phase (log s ++ x ∷ []) ≡ closed
      → (r.1 ≡ none → log r.0 ≡ log s ++ x ∷ [])
      → ((e : Err) → r.1 ≡ some e → log r.0 ≡ log s)
      → Clean link is_head
          (record { state = r.0; response = latch r.1 v; resets = []; completed = false })
  closing-Clean s x v (s', none) i p sent lost = record {
    legal = inr (inr (ap phase (sent refl) ∙ p));
    complete = λ h. cc;
    reset_unended = λ _. inl refl;
  }
  closing-Clean s x v (s', some e) i p sent lost = open-Clean s' _ _ (inl (rw (lost e refl) i))

  crash-Clean :
      (s : State) (rsp : ResponseWriter)
      → rsp.wrote_headers ≡ false
      → phase (log s) ≡ interim
      → let r = write_headers link s (panicked rsp) true in
        Clean link is_head (record { state = r.0; response = r.1; resets = []; completed = false })
  unfolding write_headers
  crash-Clean s rsp quiet i =
      if_cases
        (λ (r : State × ResponseWriter × Option Err).
          Clean link is_head
            (record { state = r.0; response = r.1; resets = []; completed = false }))
        rsp.wrote_headers (λ on. absurd (true≢false (sym on ∙ quiet)))
        λ _.
          let v = prepare (panicked rsp) in
          closing-Clean s (Intent.resp_headers link.id v.status v.header true)
            (record v { wrote_headers = true })
            (link.send_response_headers s v.status v.header true) i
            (rw (phase-append, i, prepare_status (panicked rsp) refl))
            (link.headers_sent s v.status v.header true)
            (link.headers_lost s v.status v.header true)

  recover-Clean :
      (s : State) (rsp : ResponseWriter) (offered : ℕ)
      → Sound (log s) offered rsp
      → Clean link is_head (recover link (s, rsp))
  unfolding recover
  recover-Clean s rsp offered f =
      if_cases (Clean link is_head) (not rsp.wrote_headers)
        (λ q.
          let quiet = false_of_negation rsp.wrote_headers q in
          crash-Clean s rsp quiet (f.silent quiet).0)
        λ _. open-Clean s rsp _ (phase_of_Sound link f)

  conclude-Clean :
      (panics data_done : Bool) (offered : ℕ) (o : Outcome (State × ResponseWriter))
      → Ends (SoundAt link is_head offered) o
      → Ends (Clean link is_head) (conclude link panics data_done o)
  conclude-Clean true data_done offered (returns (s, rsp)) f = recover-Clean s rsp offered f.0
  conclude-Clean false data_done offered (returns (s, rsp)) f =
      finish-Clean data_done s rsp offered f.0 f.2
  conclude-Clean panics data_done offered blocks f = f
  conclude-Clean panics data_done offered out_of_fuel f = f

module _ (link : Link) where
  open link use {State, log}

  routed-Clean :
      (handler : Url → Run) (req : Request) (s : State) (u : Option Url)
      → log s ≡ []
      → ((v : Url) → Short (handler v).calls × offered_in (handler v).calls < 2 ^ 63)
      → Ends (Clean link req.is_head) (routed link handler req s u)
  routed-Clean handler req s none e h =
      open-Clean link req.is_head s (new_writer req.is_head) (protocol ∷ [])
        (inl (ap phase e ∙ phase-nil))
  routed-Clean handler req s (some u) e h =
      conclude-Clean link req.is_head (handler u).panics req.data_done _ _ (
        handle-Sound link req.is_head (handler u).calls (s, new_writer req.is_head) 0
          (
            subst (λ l. Sound l 0 (new_writer req.is_head)) (sym e) (fresh-Sound req.is_head),
            λ p. absurd (true≢false (sym p)),
            refl,
          )
          (h u).0 (omega (arith, (h u).1)))

  -- `serveStream` on a stream that nothing was sent on yet, for a handler that passes fewer than
  -- 2^31 bytes to each `Write` and fewer than 2^63 in all. Unless a call waits for credit for ever,
  -- it ends (the loop of `Write` never runs out of fuel), and the frames on the wire are 1xx
  -- responses and at most one final response with its DATA, never anything malformed. A request that
  -- counts as completed has its END_STREAM out; and by the status and the header of the final HEADERS
  -- on the wire, the DATA has no bytes for 204, 304 and a response to HEAD, and else exactly as many
  -- as a Content-Length that is a number declares. Once END_STREAM is out the stream is not reset,
  -- but for NO_ERROR. This includes a handler that panics and a request URI that is refused.
  pub serve_stream-Clean :
      (handler : Url → Run) (req : Request) (s : State)
      → log s ≡ []
      → ((v : Url) → Short (handler v).calls × offered_in (handler v).calls < 2 ^ 63)
      → Ends (Clean link req.is_head) (serve_stream link handler req s)
  unfolding serve_stream
  serve_stream-Clean handler req s e h = routed-Clean handler req s (parse_request_uri req.path) e h
