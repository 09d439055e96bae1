-- ===== src/Worker/Response/Closing.antt =====
-- `endStream` (writer.go): when the peer sees the end of the stream, the message is whole.
use mathlib.Core.Bool.{true≢false}
use reverse_http.Prelude.{
  ℕ, ◌≤◌, ◌≡◌, refl, subst, ap, sym, ◌∙◌, ◌⊎◌, inl, inr, Bool, true, false, not, ◌&&◌, Option, none,
  some, List, [], ◌∷◌, ◌++◌, arith, append-nil, if_cases, Bool-cases,
}
use reverse_http.Prelude.Int.{ℤ, pos, ltb_ℤ}
use reverse_http.H2.Errors.{Err}
use reverse_http.H2.Writer.{Intent, Header}
use reverse_http.Worker.Link.{Link}
use reverse_http.Worker.Response.{
  ResponseWriter, WriteErr, latch, prepare, write_headers, end_stream, as_write_err,
}
use reverse_http.Worker.Response.Shape.{
  Whole, Fits, bodiless, declared_in, final_head, final_head-append, final_one, interim, streaming,
  closed, phase, phase-append, body_bytes, body_bytes-data, body_bytes-headers,
}
use reverse_http.Worker.Response.Sound.{
  Sound, as_declared, Prepared, prepare-Prepared, prepare-Sound,
}
use reverse_http.Worker.Response.Calls.{streaming_of_Sound}
use reverse_http.Worker.Response.Method.{prepare_method}

-- The test for a short response, read at the numbers that the counters stand for.
exact_of_test :
    (d w : ℤ) (a n : ℕ)
    → d ≡ pos n
    → w ≡ pos a
    → a ≤ n
    → (not (ltb_ℤ d (pos 0)) && ltb_ℤ w d) ≡ false
    → a ≡ n
exact_of_test d w a n e q le h =
    let h' : (not (ltb_ℤ (pos n) (pos 0)) && ltb_ℤ (pos a) (pos n)) ≡ false = rw (e, q) at h in
    ground arith

pub false_of_negation : (b : Bool) → not b ≡ true → b ≡ false
false_of_negation b h = ground arith

true_of_negation : (b : Bool) → not b ≡ false → b ≡ true
true_of_negation b h = ground arith

module _ (link : Link) where
  open link use {State, log}

  pub record Ended (s : State) (rsp : ResponseWriter) (r : State × ResponseWriter × Option WriteErr)
      : Type 0 where
    pub ended :
        r.2 ≡ none
        → (phase (log r.0) ≡ closed)
          × (body_bytes (log r.0) ≡ body_bytes (log s))
          × Whole rsp.is_head (log r.0)
    pub unended :
        (e : WriteErr) → r.2 ≡ some e → (phase (log r.0) ≡ interim) ⊎ (phase (log r.0) ≡ streaming)

  pub phase_of_Sound :
      {l : List Intent} {offered : ℕ} {rsp : ResponseWriter}
      → Sound l offered rsp
      → (phase l ≡ interim) ⊎ (phase l ≡ streaming)
  phase_of_Sound {l} {offered} {rsp} f = elim (Bool-cases rsp.wrote_headers) [
    | inr quiet ↦ inl (f.silent quiet).0
    | inl on ↦ elim (f.speaking on) [ inl h ↦ inr h | inr h ↦ inl h.0 ]
  ]

  -- The last frame, whichever it is.
  last-Ended :
      (s : State) (rsp : ResponseWriter) (x : Intent) (v : ResponseWriter) (r : State × Option Err)
      → phase (log s ++ x ∷ []) ≡ closed
      → body_bytes (log s ++ x ∷ []) ≡ body_bytes (log s)
      → v.is_head ≡ rsp.is_head
      → Whole v.is_head (log s ++ x ∷ [])
      → (phase (log s) ≡ interim) ⊎ (phase (log s) ≡ streaming)
      → (r.1 ≡ none → log r.0 ≡ log s ++ x ∷ [])
      → ((e : Err) → r.1 ≡ some e → log r.0 ≡ log s)
      → Ended s rsp (r.0, latch r.1 v, as_write_err r.1)
  last-Ended s rsp x v (s', none) p b m whole ph sent lost = record {
    ended = λ _. (
      ap phase (sent refl) ∙ p,
      ap body_bytes (sent refl) ∙ b,
      subst (λ h. Whole h (log s')) m (subst (Whole v.is_head) (sym (sent refl)) whole),
    );
    unended = λ e h. cc;
  }
  last-Ended s rsp x v (s', some e) p b m whole ph sent lost = record {
    ended = λ h. cc;
    unended = λ _ _. rw (lost e refl) ph;
  }

  -- What the test for a short response leaves fits the announcement.
  Fits-of_test :
      (s : State) (offered : ℕ) (v : ResponseWriter) (b : Bool) (d : Option ℕ)
      → Sound (log s) offered v
      → v.prepared ≡ true
      → v.no_body ≡ b
      → v.declared_cl ≡ as_declared d
      → (not v.no_body && not (ltb_ℤ v.declared_cl (pos 0)) && ltb_ℤ v.written v.declared_cl)
        ≡ false
      → Fits b d (body_bytes (log s))
  Fits-of_test s offered v true d g p nb cl t = (g.silent (g.bodyless nb)).1
  Fits-of_test s offered v false none g p nb cl t = tt
  Fits-of_test s offered v false (some n) g p nb cl t =
      exact_of_test v.declared_cl v.written _ n cl g.counted (g.declared n p cl)
        (drop_true _ _ _ (ap not nb) t)
    where
      drop_true : (a b c : Bool) → a ≡ true → (a && b && c) ≡ false → (b && c) ≡ false
      drop_true true b c e h = h
      drop_true false b c e h = cc

  Whole-of :
      (l : List Intent) (s : State) (v : ResponseWriter) (h : Header)
      → body_bytes l ≡ body_bytes (log s)
      → final_head l ≡ some (v.status, h)
      → Fits (bodiless v.is_head v.status) (declared_in h) (body_bytes (log s))
      → Whole v.is_head l
  Whole-of l s v h b e f = record {
    status = v.status;
    header = h;
    sent_head = e;
    fits = subst (Fits (bodiless v.is_head v.status) (declared_in h)) (sym b) f;
  }

  abbrev Full : State → ResponseWriter → Type 0
  Full s v =
      (b : Bool) (d : Option ℕ)
      → v.no_body ≡ b
      → v.declared_cl ≡ as_declared d
      → Fits b d (body_bytes (log s))

  -- With no headers out yet, they announce what the writer has taken over, or nothing of a body.
  unsent-Fits :
      (s : State) (offered : ℕ) (v : ResponseWriter)
      → Sound (log s) offered v
      → Full s v
      → v.prepared ≡ true
      → v.wrote_headers ≡ false
      → Fits (bodiless v.is_head v.status) (declared_in v.header) (body_bytes (log s))
  unsent-Fits s offered v g full p quiet = elim (Bool-cases v.no_body) [
    | inl nb ↦
        subst (λ b. Fits b (declared_in v.header) (body_bytes (log s))) (sym nb ∙ g.judged p)
          (g.silent quiet).1
    | inr b ↦ full _ _ (g.judged p) (g.poised p b quiet)
  ]

  headers_end :
      (s : State) (offered : ℕ) (rsp v : ResponseWriter)
      → prepare v ≡ v
      → Sound (log s) offered v
      → v.prepared ≡ true
      → v.is_head ≡ rsp.is_head
      → Full s v
      → v.wrote_headers ≡ false
      → let r = write_headers link s v true in Ended s rsp (r.0, r.1, as_write_err r.2)
  unfolding write_headers
  headers_end s offered rsp v same g p m full quiet =
      if_cases
        (λ (r : State × ResponseWriter × Option Err). Ended s rsp (r.0, r.1, as_write_err r.2))
        v.wrote_headers (λ on. absurd (true≢false (sym on ∙ quiet)))
        λ _. rw same (
          last-Ended s rsp (Intent.resp_headers link.id v.status v.header true)
            (record v { wrote_headers = true })
            (link.send_response_headers s v.status v.header true)
            (rw (phase-append, (g.silent quiet).0, g.final))
            (body_bytes-headers (log s) link.id v.status v.header true) m
            (Whole-of _ s v v.header (body_bytes-headers (log s) link.id v.status v.header true)
              (final_one (log s) link.id v.status v.header true g.final)
              (unsent-Fits s offered v g full p quiet))
            (inl (g.silent quiet).0) (link.headers_sent s v.status v.header true)
            (link.headers_lost s v.status v.header true))

  data_end :
      (s : State) (offered : ℕ) (rsp v : ResponseWriter)
      → Sound (log s) offered v
      → v.prepared ≡ true
      → v.err ≡ none
      → v.is_head ≡ rsp.is_head
      → Full s v
      → v.wrote_headers ≡ true
      → let r = link.send_data s [] true in Ended s rsp (r.0, latch r.1 v, as_write_err r.1)
  data_end s offered rsp v g p ok m full on =
      let ph = streaming_of_Sound link g on ok in
      let hd = g.headed ph in
      let b = body_bytes-data (log s) link.id [] true ∙ append-nil _ in
      last-Ended s rsp (Intent.body link.id [] true) v (link.send_data s [] true)
        (rw (phase-append, ph)) b m
        (Whole-of _ s v hd.0 b (final_head-append (log s) (Intent.body link.id [] true) ∙ hd.1)
          (full _ _ (g.judged p) hd.2))
        (inr ph) (link.data_sent s [] true) (link.data_lost s [] true)

  -- `endStream` on a response with no error so far. If it reports success, the frames form a
  -- complete response, END_STREAM included, and no bytes were added; and by the status and the header
  -- of the final HEADERS on the wire, the DATA has no bytes for 204, 304 and a response to HEAD, and
  -- else exactly as many as a Content-Length that is a number declares. If it reports an error, no
  -- END_STREAM has gone out.
  pub end_stream-Ended :
      (s : State) (offered : ℕ) (rsp : ResponseWriter)
      → Sound (log s) offered rsp
      → rsp.err ≡ none
      → Ended s rsp (end_stream link s rsp)
  unfolding end_stream
  end_stream-Ended s offered rsp f ok =
      if_cases E
        (not v.no_body && not (ltb_ℤ v.declared_cl (pos 0)) && ltb_ℤ v.written v.declared_cl)
        (λ _. record { ended = λ h. cc; unended = λ _ _. phase_of_Sound g })
        λ t.
          let whole : Full s v = (λ b d nb cl. Fits-of_test s offered v b d g p.now nb cl t) in
          if_cases E (not v.wrote_headers)
            (λ q.
              headers_end s offered rsp v ((prepare-Prepared v).if_before p.now) g p.now
                (prepare_method rsp) whole (false_of_negation _ q))
            λ o.
              data_end s offered rsp v g p.now (p.same_err ∙ ok) (prepare_method rsp) whole
                (true_of_negation _ o)
    where
      p : Prepared rsp (prepare rsp)
      p = prepare-Prepared rsp

      v : ResponseWriter
      v = prepare rsp

      g : Sound (log s) offered v
      g = prepare-Sound (log s) offered rsp f

      E : State × ResponseWriter × Option WriteErr → Type 0
      E = Ended s rsp
