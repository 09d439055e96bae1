-- ===== src/Worker/Response/Calls.antt =====
-- Each call that a handler makes on its response keeps the invariant (writer.go).
use mathlib.Core.Bool.{true≢false}
use reverse_http.Prelude.{
  ℕ, suc, ◌+◌, ◌≤◌, ◌<◌, ◌^◌, ◌≡◌, refl, ap, sym, ◌∙◌, ◌⊎◌, inl, inr, true, false, not, ◌&&◌,
  Option, none, some, List, [], ◌∷◌, ◌++◌, arith, length, leb, append-nil, Bytes, if_cases, nat_eq,
}
use reverse_http.Prelude.Int.{ℤ, pos, ◌+ℤ◌, ◌<ℤ◌, ltb_ℤ, int64}
use reverse_http.H2.Errors.{Err}
use reverse_http.H2.Writer.{Intent}
use reverse_http.Worker.Link.{Link}
use reverse_http.Worker.Response.{
  ResponseWriter, WriteErr, sending, content_length, Outcome, returns, blocks, out_of_fuel, Written,
  is_set, latch, write_headers, write_body, max_frame_of,
}
use reverse_http.Worker.Response.Shape.{streaming, phase, body_bytes, body_bytes-headers}
use reverse_http.Worker.Response.Sound.{
  Sound, Resting, prepare-Prepared, headers_out, headers_failed, err-Sound, Sound-mono,
}
use reverse_http.Worker.Response.Loop.{Ends, Wrote, write_loop-Wrote, add_count}

limit_of_test :
    (d w : ℤ) (a l n : ℕ)
    → d ≡ pos n
    → w ≡ pos a
    → a + l < 2 ^ 63
    → (not (ltb_ℤ d (pos 0)) && ltb_ℤ d (int64 (w +ℤ pos l))) ≡ false
    → a + l ≤ n
limit_of_test d w a l n e q small h =
    let h' : (not (ltb_ℤ (pos n) (pos 0)) && ltb_ℤ (pos n) (pos (a + l))) ≡ false =
      rw (e, q, add_count a l small) at h in
    ground arith

length_zero : (p : Bytes) → leb (length p) 0 ≡ true → p ≡ []
length_zero [] h = refl
length_zero (b ∷ p) h = ground arith

module _ (link : Link) where
  open link use {State, log}

  -- The headers are out, or an error is latched.
  pub record HeadersOut (s : State) (offered : ℕ) (rsp : ResponseWriter)
      (r : State × ResponseWriter × Option Err) : Type 0 where
    pub sound : Sound (log r.0) offered r.1
    pub on : r.1.wrote_headers ≡ true
    pub same_body : body_bytes (log r.0) ≡ body_bytes (log s)
    pub same_prepared : r.1.prepared ≡ rsp.prepared
    pub same_declared : r.1.declared_cl ≡ rsp.declared_cl
    pub same_no_body : r.1.no_body ≡ rsp.no_body
    pub fine : r.2 ≡ none → r.1.err ≡ rsp.err
    pub broken : (e : Err) → r.2 ≡ some e → r.1.err ≡ some (sending e)

  sent-HeadersOut :
      (s : State) (offered : ℕ) (rsp : ResponseWriter)
      → Sound (log s) offered rsp
      → rsp.prepared ≡ true
      → rsp.no_body ≡ false
      → rsp.wrote_headers ≡ false
      → (r : State × Option Err)
      → (r.1 ≡ none
          → log r.0 ≡ log s ++ Intent.resp_headers link.id rsp.status rsp.header false ∷ [])
      → ((e : Err) → r.1 ≡ some e → log r.0 ≡ log s)
      → HeadersOut s offered rsp (r.0, latch r.1 (record rsp { wrote_headers = true }), r.1)
  sent-HeadersOut s offered rsp f p nb quiet (s', none) sent lost = record {
    sound = rw (sent refl) (headers_out (log s) offered rsp f link.id p nb quiet);
    on = refl;
    same_body = rw (sent refl) (body_bytes-headers (log s) link.id rsp.status rsp.header false);
    same_prepared = refl;
    same_declared = refl;
    same_no_body = refl;
    fine = λ _. refl;
    broken = λ e h. cc;
  }
  sent-HeadersOut s offered rsp f p nb quiet (s', some e) sent lost = record {
    sound = rw (lost e refl) (headers_failed (log s) offered rsp f e p nb quiet);
    on = refl;
    same_body = ap body_bytes (lost e refl);
    same_prepared = refl;
    same_declared = refl;
    same_no_body = refl;
    fine = λ h. cc;
    broken = λ e' h. cc;
  }

  pub write_headers-HeadersOut :
      (s : State) (offered : ℕ) (rsp : ResponseWriter)
      → Sound (log s) offered rsp
      → rsp.prepared ≡ true
      → rsp.no_body ≡ false
      → HeadersOut s offered rsp (write_headers link s rsp false)
  unfolding write_headers
  write_headers-HeadersOut s offered rsp f p nb =
      if_cases (HeadersOut s offered rsp) rsp.wrote_headers
        (λ on. record {
          sound = f;
          on = on;
          same_body = refl;
          same_prepared = refl;
          same_declared = refl;
          same_no_body = refl;
          fine = λ _. refl;
          broken = λ e h. cc;
        })
        λ quiet. rw ((prepare-Prepared rsp).if_before p) (
          sent-HeadersOut s offered rsp f p nb quiet
            (link.send_response_headers s rsp.status rsp.header false)
            (link.headers_sent s rsp.status rsp.header false)
            (link.headers_lost s rsp.status rsp.header false))

  -- What a call of `Write` with `p` does: it sends some first part of `p`, and all of `p` if it
  -- returns no error and the response has a body.
  pub record WriteDone (before : Bytes) (offered : ℕ) (p : Bytes) (r : Written link) : Type 0 where
    pub sound : Sound (log r.0) offered r.1
    pub sent : Bytes
    pub unsent : Bytes
    pub split : sent ++ unsent ≡ p
    pub on_wire : body_bytes (log r.0) ≡ before ++ sent
    pub complete : r.3 ≡ none → (unsent ≡ []) ⊎ ((r.1.no_body ≡ true) × (sent ≡ []))
    pub count : r.3 ≡ none → r.2 ≡ length p
    pub resting : Resting r.1

  pub quiet-WriteDone :
      (before : Bytes) (offered : ℕ) (p : Bytes) (s : State) (rsp : ResponseWriter) (e : WriteErr)
      → Sound (log s) offered rsp
      → body_bytes (log s) ≡ before
      → Resting rsp
      → WriteDone before offered p (s, rsp, 0, some e)
  quiet-WriteDone before offered p s rsp e f b rest = record {
    sound = f;
    sent = [];
    unsent = p;
    split = refl;
    on_wire = b ∙ sym (append-nil before);
    complete = λ h. cc;
    count = λ h. cc;
    resting = rest;
  }

  pub done_of_Wrote :
      (offered : ℕ) (before p : Bytes) (o : Outcome (Written link))
      → Ends (Wrote link offered before p 0) o
      → Ends (WriteDone before offered p) o
  done_of_Wrote offered before p blocks w = w
  done_of_Wrote offered before p out_of_fuel w = w
  done_of_Wrote offered before p (returns r) w = record {
    sound = w.sound;
    sent = w.sent;
    unsent = w.unsent;
    split = w.split;
    on_wire = w.on_wire;
    complete = λ h. inl (w.complete h);
    count = λ h. all_sent w.sent w.unsent (w.complete h) w.split w.count;
    resting = λ _ _. w.still_on;
  }
    where
      all_sent :
          (sent unsent : Bytes)
          → unsent ≡ []
          → sent ++ unsent ≡ p
          → r.2 ≡ 0 + length sent
          → r.2 ≡ length p
      all_sent sent unsent e split c =
          let q : sent ≡ p = sym (append-nil sent) ∙ ap (λ u. sent ++ u) (sym e) ∙ split in
          omega (arith, c, ap length q)

  max_frame_of_positive : (s : State) → pos 0 <ℤ max_frame_of link s
  max_frame_of_positive s = ground arith

  pub streaming_of_Sound :
      {l : List Intent} {offered : ℕ} {rsp : ResponseWriter}
      → Sound l offered rsp
      → rsp.wrote_headers ≡ true
      → rsp.err ≡ none
      → phase l ≡ streaming
  streaming_of_Sound {l} {offered} {rsp} f on ok = elim (f.speaking on) [
    | inl h ↦ h
    | inr h ↦ absurd (true≢false (sym h.1 ∙ ap is_set ok))
  ]

  pub write_body-Done :
      (s : State) (offered : ℕ) (rsp : ResponseWriter) (p : Bytes)
      → Sound (log s) offered rsp
      → rsp.wrote_headers ≡ true
      → rsp.err ≡ none
      → length p < 2 ^ 31
      → offered + length p < 2 ^ 63
      → Ends (WriteDone (body_bytes (log s)) (offered + length p) p) (write_body link s rsp p)
  unfolding write_body
  write_body-Done s offered rsp p f on ok short small =
      if_cases (Ends D) (leb (length p) 0) (λ z. nothing (length p) z refl)
        λ nz.
          if_cases (Ends D)
            (not (ltb_ℤ rsp.declared_cl (pos 0))
              && ltb_ℤ rsp.declared_cl (int64 (rsp.written +ℤ pos (length p))))
            (λ v.
              quiet-WriteDone _ _ p s _ content_length
                (err-Sound (log s) _ rsp more content_length true) refl (λ _ _. on))
            λ v. done_of_Wrote (offered + length p) (body_bytes (log s)) p _ (
              write_loop-Wrote link (offered + length p) (suc (length p)) (max_frame_of link s) s
                rsp p 0 (max_frame_of_positive s) short (omega arith)
                (record {
                  sound = more;
                  on = on;
                  clean = streaming_of_Sound f on ok;
                  no_err = ok;
                  room = omega (arith, f.within);
                  limit = λ n _ d.
                      limit_of_test rsp.declared_cl rsp.written (length (body_bytes (log s)))
                        (length p) n d f.counted (omega (arith, f.within)) v;
                  small = small;
                }))
    where
      D : Written link → Type 0
      D = WriteDone (body_bytes (log s)) (offered + length p) p

      more : Sound (log s) (offered + length p) rsp
      more = Sound-mono (log s) offered (offered + length p) rsp (omega arith) f

      nothing : (n : ℕ) → leb n 0 ≡ true → length p ≡ n → D (s, rsp, 0, none)
      nothing n z e = record {
        sound = more;
        sent = [];
        unsent = p;
        split = refl;
        on_wire = sym (append-nil _);
        complete = λ _. inl (length_zero p (rw e z));
        count = λ _. ap length (sym (length_zero p (rw e z)));
        resting = λ _ _. on;
      }
