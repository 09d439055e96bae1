-- ===== src/Worker/Wired/Served.antt =====
-- `serveStream` (stream.go) over the writer goroutine and the flow control that it runs on
-- (internal/h2/writer.go, internal/h2/flow.go): the interface `Link` filled by those two.
use reverse_http.Prelude.{
  ℕ, ◌<◌, ◌^◌, ◌≡◌, refl, subst, ap, ◌∙◌, Bool, true, false, Option, none, some, [], ◌∷◌, ◌++◌, map,
  Bytes, if◌then◌else◌, append-nil, arith, nat_beq_iff, nat_eq,
}
use reverse_http.Prelude.Int.{ℤ, pos, ◌≤ℤ◌, ◌<ℤ◌}
use reverse_http.H2.Errors.{Err}
use reverse_http.H2.Writer.{Header, Intent, Framer}
use reverse_http.H2.Writer.Rendered.{render}
use reverse_http.H2.Writer.Quiet.{frames, is_of, is_err}
use reverse_http.Worker.Link.{Link}
use reverse_http.Worker.Response.{Outcome, returns, blocks, out_of_fuel}
use reverse_http.Worker.Response.Ending.{offered_in, Short}
use reverse_http.Worker.Response.Loop.{Ends}
use reverse_http.Worker.Serve.{Served, Request, Run, serve_stream}
use reverse_http.Worker.Serve.Verdicts.{Clean, serve_stream-Clean}
use reverse_http.Worker.Uri.{Url}
use reverse_http.Worker.Wired.{Shared, send, Grants, reserve_over}
use reverse_http.Worker.Wired.Valid.{Valid}
use reverse_http.Worker.Wired.Calls.{send-Sent, Gives, never, gives, reserve_over-Gives}

module _ (framer : Framer) (id who : ℕ) where
  abbrev pub Wiring : Type 0
  Wiring = (s : Shared id) × Valid s

  -- The intents that HEADERS and DATA of the stream are submitted as.
  pub headers_own :
      (status : ℕ) (header : Header) (end_stream : Bool)
      → is_of id (render (Intent.resp_headers id status header end_stream)) ≡ true
  headers_own status header end_stream = ground (arith, nat_beq_iff id id)

  pub body_own :
      (bytes : Bytes) (end_stream : Bool)
      → is_of id (render (Intent.body id bytes end_stream)) ≡ true
  body_own bytes end_stream = ground (arith, nat_beq_iff id id)

  abbrev pub submit_own : Wiring → (i : Intent) → is_of id (render i) ≡ true → Wiring × Option Err
  submit_own (s, v) i mine = (
    ((send framer id who s i).0, (send-Sent framer id who s i mine v).valid),
    (send framer id who s i).1,
  )

  pub own_sent :
      (s : Wiring) (i : Intent) (mine : is_of id (render i) ≡ true)
      → (submit_own s i mine).1 ≡ none
      → (submit_own s i mine).0.0.put ≡ s.0.put ++ i ∷ []
  own_sent (s, v) i mine h =
      (send-Sent framer id who s i mine v).now_put
      ∙ ap (λ o. s.put ++ (if is_err o then [] else i ∷ [])) h

  pub own_lost :
      (s : Wiring) (i : Intent) (mine : is_of id (render i) ≡ true) (e : Err)
      → (submit_own s i mine).1 ≡ some e
      → (submit_own s i mine).0.0.put ≡ s.0.put
  own_lost (s, v) i mine e h =
      (send-Sent framer id who s i mine v).now_put
      ∙ ap (λ o. s.put ++ (if is_err o then [] else i ∷ [])) h
      ∙ append-nil s.put

  abbrev pub given :
      {s : Shared id} {want : ℤ} (o : Grants framer id who)
      → Gives framer id who s want o
      → Option (Wiring × ℤ × Bool)
  given none never = none
  given (some (t, got, dead)) (gives k g) = some ((t, k.valid), got, dead)

  -- What the laws of the interface ask of a call of `Reserve`.
  abbrev pub Lawful : Shared id → ℤ → Option (Wiring × ℤ × Bool) → Type 0
  Lawful s want none = Unit
  Lawful s want (some (t, got, dead)) =
      (t.0.put ≡ s.put) × (pos 0 <ℤ want → dead ≡ false → (pos 0 <ℤ got) × (got ≤ℤ want))

  given-Lawful :
      {s : Shared id} {want : ℤ} (o : Grants framer id who) (g : Gives framer id who s want o)
      → Lawful s want (given o g)
  given-Lawful none never = tt
  given-Lawful (some (t, got, dead)) (gives k g) = (k.same, g)

  abbrev pub reserve_own : Wiring → ℤ → Option (Wiring × ℤ × Bool)
  reserve_own (s, v) want =
      given (reserve_over framer id who s want) (reserve_over-Gives framer id who s want v)

  pub reserve_own-Lawful : (s : Wiring) (want : ℤ) → Lawful s.0 want (reserve_own s want)
  reserve_own-Lawful (s, v) want =
      given-Lawful (reserve_over framer id who s want) (reserve_over-Gives framer id who s want v)

  abbrev pub wired : Link
  wired = record {
    State = Wiring;
    id = id;
    log = λ s. s.0.put;
    max_frame_size = λ s. s.0.max_frame;
    send_response_headers = λ s status header end_stream.
        submit_own s (Intent.resp_headers id status header end_stream)
          (headers_own status header end_stream);
    send_data = λ s bytes end_stream.
        submit_own s (Intent.body id bytes end_stream) (body_own bytes end_stream);
    reserve = reserve_own;
    headers_sent =
        λ s status header end_stream h. own_sent s _ (headers_own status header end_stream) h;
    headers_lost =
        λ s status header end_stream e h. own_lost s _ (headers_own status header end_stream) e h;
    data_sent = λ s bytes end_stream h. own_sent s _ (body_own bytes end_stream) h;
    data_lost = λ s bytes end_stream e h. own_lost s _ (body_own bytes end_stream) e h;
    reserve_log = λ s s' want got dead h. (subst (Lawful s.0 want) h (reserve_own-Lawful s want)).0;
    reserve_grant =
        λ s s' want got w h. (subst (Lawful s.0 want) h (reserve_own-Lawful s want)).1 w refl;
  }

  -- The stream's HEADERS and DATA on the wire are those of the intents that were put there, and these
  -- form a clean response.
  pub record Wrote (is_head : Bool) (r : Served Wiring) : Type 0 where
    pub clean : Clean wired is_head r
    pub on_the_wire : frames id r.state.0.writer.wire ≡ map render r.state.0.put

  both :
      (is_head : Bool) (o : Outcome (Served Wiring))
      → Ends (Clean wired is_head) o
      → Ends (Wrote is_head) o
  both is_head (returns r) c = record { clean = c; on_the_wire = r.state.1.shown }
  both is_head blocks c = c
  both is_head out_of_fuel c = c

  -- `serveStream` over the writer goroutine's `submit` and the shared `SendCredit`, on a stream that
  -- nothing was sent on yet, for a handler that passes fewer than 2^31 bytes to each `Write` and
  -- fewer than 2^63 in all. At the start the writer's queue fits and has no HEADERS or DATA of the
  -- stream, its cache holds lower-case names, a writer that is dead has an error, and both windows
  -- are in the range of an int32. Before each call and each wait for credit the other goroutines do
  -- what the schedule says: they submit their own frames, the writer takes intents, fails or stops,
  -- the connection dies, other streams reserve credit, the peer grows or resizes the windows. Unless
  -- a call waits for credit for ever, `serveStream` ends, and the HEADERS and DATA of the stream on
  -- the wire are, in order, the frames of the intents that were answered with no error. Those form
  -- 1xx responses and at most one final response with its DATA, never anything malformed. A request
  -- that counts as completed has its END_STREAM out, and is then not reset but for NO_ERROR; and by
  -- the status and the header of the final HEADERS, the DATA has no bytes for 204, 304 and a response
  -- to HEAD, and else exactly as many as a Content-Length that is a number declares.
  pub serve_stream-Wrote :
      (handler : Url → Run) (req : Request) (s : Shared id) (v : Valid s)
      → s.put ≡ []
      → ((u : Url) → Short (handler u).calls × offered_in (handler u).calls < 2 ^ 63)
      → Ends (Wrote req.is_head) (serve_stream wired handler req (s, v))
  serve_stream-Wrote handler req s v e h =
      both req.is_head _ (serve_stream-Clean wired handler req (s, v) e h)
