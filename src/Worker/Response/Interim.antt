-- ===== src/Worker/Response/Interim.antt =====
-- `Flush`, `WriteHeader` and the interim responses (writer.go).
use reverse_http.Prelude.{
  ℕ, ◌≡◌, refl, ap, sym, ◌∙◌, Bool, true, false, ◌||◌, ◌&&◌, Option, none, some, List, [], ◌∷◌,
  ◌++◌, length, append-nil, if_cases, ◌==◌, nat_eq, leb,
}
use reverse_http.Prelude.Int.{pos}
use reverse_http.H2.Errors.{Err}
use reverse_http.H2.Writer.{Intent}
use reverse_http.Worker.Link.{Link}
use reverse_http.Worker.Response.{
  ResponseWriter, sending, is_set, latch, prepare, flush, send_empty, write_header,
  write_informational, write_headers,
}
use reverse_http.Worker.Response.Shape.{
  streaming, phase, phase-append, body_bytes, body_bytes-data, body_bytes-headers, is_informational,
  final_head, final_head-append, interim_head,
}
use mathlib.Core.Bool.{true≢false}
use reverse_http.Worker.Response.Sound.{
  Sound, Resting, interim≢streaming, prepare-Prepared, prepare-Sound, err-Sound,
}
use reverse_http.Worker.Response.Calls.{HeadersOut, write_headers-HeadersOut, streaming_of_Sound}
use reverse_http.Worker.Response.Writes.{none_of_is_set}

-- Frames that change neither the bytes sent nor the phase.
same-Sound :
    (log log' : List Intent) (offered : ℕ) (rsp : ResponseWriter)
    → phase log' ≡ phase log
    → body_bytes log' ≡ body_bytes log
    → final_head log' ≡ final_head log
    → Sound log offered rsp
    → Sound log' offered rsp
same-Sound log log' offered rsp p b e f = record {
  final = f.final;
  resolved = f.resolved;
  silent = λ h. (p ∙ (f.silent h).0, ap length b ∙ (f.silent h).1);
  speaking = λ h. rw p (f.speaking h);
  counted = f.counted ∙ ap (λ bs. pos (length bs)) (sym b);
  within = rw b f.within;
  declared = λ n q d. rw b (f.declared n q d);
  bodyless = f.bodyless;
  judged = f.judged;
  poised = f.poised;
  headed = λ h. (let x = f.headed (sym p ∙ h) in (x.0, e ∙ x.1, x.2));
}

latch-Sound :
    (log : List Intent) (offered : ℕ) (rsp : ResponseWriter) (o : Option Err)
    → Sound log offered rsp
    → Sound log offered (latch o rsp)
latch-Sound log offered rsp none f = f
latch-Sound log offered rsp (some e) f = err-Sound log offered rsp f (sending e) rsp.cl_violated

module _ (link : Link) where
  open link use {State, log}

  -- A send that, if it succeeds, changes neither the phase nor the bytes.
  harmless-Sound :
      (s : State) (x : Intent) (offered : ℕ) (rsp : ResponseWriter) (r : State × Option Err)
      → phase (log s ++ x ∷ []) ≡ phase (log s)
      → body_bytes (log s ++ x ∷ []) ≡ body_bytes (log s)
      → final_head (log s ++ x ∷ []) ≡ final_head (log s)
      → (r.1 ≡ none → log r.0 ≡ log s ++ x ∷ [])
      → ((e : Err) → r.1 ≡ some e → log r.0 ≡ log s)
      → Sound (log s) offered rsp
      → Sound (log r.0) offered (latch r.1 rsp)
  harmless-Sound s x offered rsp (s', none) p b h sent lost f =
      rw (sent refl) (same-Sound (log s) _ offered rsp p b h f)
  harmless-Sound s x offered rsp (s', some e) p b h sent lost f =
      rw (lost e refl) (latch-Sound (log s) offered rsp (some e) f)

  send_empty-Sound :
      (s : State) (offered : ℕ) (rsp : ResponseWriter) (r : State × ResponseWriter × Option Err)
      → rsp.err ≡ none
      → HeadersOut link s offered rsp r
      → Sound (log (send_empty link r).0) offered (send_empty link r).1
  send_empty-Sound s offered rsp (s', rsp', some e) ok h = h.sound
  send_empty-Sound s offered rsp (s', rsp', none) ok h =
      harmless-Sound s' (Intent.body link.id [] false) offered rsp' (link.send_data s' [] false)
        (rw (phase-append, on)) (body_bytes-data (log s') link.id [] false ∙ append-nil _)
        (final_head-append (log s') (Intent.body link.id [] false)) (link.data_sent s' [] false)
        (link.data_lost s' [] false) h.sound
    where
      on : phase (log s') ≡ streaming
      on = streaming_of_Sound link h.sound h.on (h.fine refl ∙ ok)

  pub flush-Sound :
      (s : State) (offered : ℕ) (rsp : ResponseWriter)
      → Sound (log s) offered rsp
      → Sound (log (flush link s rsp).0) offered (flush link s rsp).1
  unfolding flush
  flush-Sound s offered rsp f =
      if_cases (λ (r : State × ResponseWriter). Sound (log r.0) offered r.1) (is_set rsp.err)
        (λ _. f)
        λ e.
          if_cases (λ (r : State × ResponseWriter). Sound (log r.0) offered r.1)
            (prepare rsp).no_body (λ _. ready)
            λ nb.
              send_empty-Sound s offered (prepare rsp) _
                ((prepare-Prepared rsp).same_err ∙ none_of_is_set rsp.err e)
                (write_headers-HeadersOut link s offered (prepare rsp) ready
                  (prepare-Prepared rsp).now nb)
    where
      ready : Sound (log s) offered (prepare rsp)
      ready = prepare-Sound (log s) offered rsp f

  latch_on :
      (o : Option Err) (v : ResponseWriter)
      → v.wrote_headers ≡ true
      → (latch o v).wrote_headers ≡ true
  latch_on none v h = h
  latch_on (some e) v h = h

  send_empty_on :
      (r : State × ResponseWriter × Option Err)
      → r.1.wrote_headers ≡ true
      → (send_empty link r).1.wrote_headers ≡ true
  send_empty_on (s, rsp, some e) h = h
  send_empty_on (s, rsp, none) h = latch_on (link.send_data s [] false).1 rsp h

  pub flush-Resting :
      (s : State) (offered : ℕ) (rsp : ResponseWriter)
      → Sound (log s) offered rsp
      → Resting rsp
      → Resting (flush link s rsp).1
  unfolding flush
  flush-Resting s offered rsp f rest =
      if_cases (λ (r : State × ResponseWriter). Resting r.1) (is_set rsp.err) (λ _. rest)
        λ e.
          if_cases (λ (r : State × ResponseWriter). Resting r.1) (prepare rsp).no_body
            (λ nb p b. absurd (true≢false (sym nb ∙ b)))
            λ nb p b.
              send_empty_on (write_headers link s (prepare rsp) false)
                (write_headers-HeadersOut link s offered (prepare rsp)
                  (prepare-Sound (log s) offered rsp f) (prepare-Prepared rsp).now nb).on

  latch-Resting : (o : Option Err) (v : ResponseWriter) → Resting v → Resting (latch o v)
  latch-Resting none v h = h
  latch-Resting (some e) v h = h

  pub write_header-Resting :
      (s : State) (rsp : ResponseWriter) (status : ℕ)
      → Resting rsp
      → Resting (write_header link s rsp status).1
  unfolding write_header write_informational
  write_header-Resting s rsp status rest =
      if_cases P (rsp.prepared || is_set rsp.err) (λ _. rest)
        λ _.
          if_cases P (leb 100 status && leb status 199)
            (λ _.
              if_cases P (rsp.status == 0)
                (λ _. if_cases P (status == 101) (λ _. rest) λ _. latch-Resting _ rsp rest)
                λ _. rest)
            λ _. rest
    where
      P : State × ResponseWriter → Type 0
      P r = Resting r.1

  -- A 1xx response goes out before the final one, and is nothing but an interim HEADERS frame.
  informational-Sound :
      (s : State) (offered : ℕ) (rsp : ResponseWriter) (status : ℕ)
      → is_informational status ≡ true
      → rsp.wrote_headers ≡ false
      → Sound (log s) offered rsp
      → Sound
          (log (write_informational link s rsp status).0)
          offered
          (write_informational link s rsp status).1
  unfolding write_informational
  informational-Sound s offered rsp status i quiet f =
      if_cases (λ (r : State × ResponseWriter). Sound (log r.0) offered r.1) (status == 101)
        (λ _. f)
        λ _.
          harmless-Sound s _ offered rsp (link.send_response_headers s status _ false)
            (rw (phase-append, (f.silent quiet).0, i))
            (body_bytes-headers (log s) link.id status _ false)
            (interim_head (log s) link.id status _ false i) (link.headers_sent s status _ false)
            (link.headers_lost s status _ false) f

  pub write_header-Sound :
      (s : State) (offered : ℕ) (rsp : ResponseWriter) (status : ℕ)
      → Sound (log s) offered rsp
      → Sound (log (write_header link s rsp status).0) offered (write_header link s rsp status).1
  unfolding write_header
  write_header-Sound s offered rsp status f =
      if_cases P (rsp.prepared || is_set rsp.err) (λ _. f)
        λ open_still.
          if_cases P (leb 100 status && leb status 199)
            (λ i.
              if_cases P (rsp.status == 0)
                (λ _.
                  informational-Sound s offered rsp status i
                    (f.resolved (unprepared rsp.prepared _ open_still)) f)
                λ _. f)
            λ i. record {
              final = i;
              resolved = f.resolved;
              silent = f.silent;
              speaking = f.speaking;
              counted = f.counted;
              within = f.within;
              declared = f.declared;
              bodyless = f.bodyless;
              judged = λ h. absurd (true≢false (sym h ∙ unprepared rsp.prepared _ open_still));
              poised = λ h. absurd (true≢false (sym h ∙ unprepared rsp.prepared _ open_still));
              headed = λ h. absurd (
                  interim≢streaming
                    (sym (f.silent (f.resolved (unprepared rsp.prepared _ open_still))).0 ∙ h));
            }
    where
      P : State × ResponseWriter → Type 0
      P r = Sound (log r.0) offered r.1

      unprepared : (b c : Bool) → (b || c) ≡ false → b ≡ false
      unprepared true c h = cc
      unprepared false c h = refl
