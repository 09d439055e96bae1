-- ===== src/Worker/Response/Writes.antt =====
-- `Write` and `Flush` as a handler sees them (writer.go).
use mathlib.Core.Bool.{true≢false}
use reverse_http.Prelude.{
  ℕ, ◌+◌, ◌<◌, ◌^◌, ◌≡◌, refl, subst, ap, sym, ◌∙◌, inr, true, false, Option, none, some, [], arith,
  length, append-nil, Bytes, if_cases,
}
use reverse_http.H2.Errors.{Err}
use reverse_http.Worker.Link.{Link}
use reverse_http.Worker.Response.{
  ResponseWriter, WriteErr, sending, Written, is_set, prepare, write, headers_first,
}
use reverse_http.Worker.Response.Shape.{body_bytes}
use reverse_http.Worker.Response.Sound.{Sound, Resting, prepare-Prepared, prepare-Sound, Sound-mono}
use reverse_http.Worker.Response.Loop.{Ends}
use reverse_http.Worker.Response.Calls.{
  HeadersOut, write_headers-HeadersOut, WriteDone, quiet-WriteDone, write_body-Done,
}

pub none_of_is_set : (o : Option WriteErr) → is_set o ≡ false → o ≡ none
none_of_is_set none h = refl
none_of_is_set (some e) h = cc

module _ (link : Link) where
  open link use {State, log}

  headers_first-Done :
      (s : State) (offered : ℕ) (rsp : ResponseWriter) (p : Bytes)
      → rsp.err ≡ none
      → length p < 2 ^ 31
      → offered + length p < 2 ^ 63
      → (r : State × ResponseWriter × Option Err) → HeadersOut link s offered rsp r
      → Ends (WriteDone link (body_bytes (log s)) (offered + length p) p) (headers_first link p r)
  headers_first-Done s offered rsp p ok short small (s', rsp', some e) h =
      quiet-WriteDone link _ _ p s' rsp' (sending e)
        (Sound-mono _ offered _ rsp' (omega arith) h.sound) h.same_body (λ _ _. h.on)
  headers_first-Done s offered rsp p ok short small (s', rsp', none) h =
      subst
        (λ b.
          Ends (WriteDone link b (offered + length p) p) (headers_first link p (s', rsp', none)))
        h.same_body
        (write_body-Done link s' offered rsp' p h.sound h.on (h.fine refl ∙ ok) short small)

  -- A call of `Write` with fewer than 2^31 bytes ends or waits for credit. Whatever it returns, the
  -- DATA frames carry, after the bytes that were there, a first part of `p`: all of `p` if it
  -- returns no error, unless the response has no body; and the invariant of the response holds.
  pub write-WriteDone :
      (s : State) (offered : ℕ) (rsp : ResponseWriter) (p : Bytes)
      → Sound (log s) offered rsp
      → Resting rsp
      → length p < 2 ^ 31
      → offered + length p < 2 ^ 63
      → Ends (WriteDone link (body_bytes (log s)) (offered + length p) p) (write link s rsp p)
  unfolding write
  write-WriteDone s offered rsp p f rest short small =
      if_cases (Ends D) (is_set rsp.err) (λ e. refused e)
        λ e.
          if_cases (Ends D) (prepare rsp).no_body
            (λ nb. record {
              sound = Sound-mono (log s) offered _ (prepare rsp) (omega arith) ready;
              sent = [];
              unsent = p;
              split = refl;
              on_wire = sym (append-nil _);
              complete = λ _. inr (nb, refl);
              count = λ _. refl;
              resting = λ _ f. absurd (true≢false (sym nb ∙ f));
            })
            λ nb.
              headers_first-Done s offered (prepare rsp) p
                ((prepare-Prepared rsp).same_err ∙ none_of_is_set rsp.err e) short small _
                (write_headers-HeadersOut link s offered (prepare rsp) ready
                  (prepare-Prepared rsp).now nb)
    where
      D : Written link → Type 0
      D = WriteDone link (body_bytes (log s)) (offered + length p) p

      ready : Sound (log s) offered (prepare rsp)
      ready = prepare-Sound (log s) offered rsp f

      refused : is_set rsp.err ≡ true → D (s, rsp, 0, rsp.err)
      refused e = record {
        sound = Sound-mono (log s) offered _ rsp (omega arith) f;
        sent = [];
        unsent = p;
        split = refl;
        on_wire = sym (append-nil _);
        complete = λ h. absurd (true≢false (sym e ∙ ap is_set h));
        count = λ h. absurd (true≢false (sym e ∙ ap is_set h));
        resting = rest;
      }
