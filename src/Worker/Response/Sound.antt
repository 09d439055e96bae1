-- ===== src/Worker/Response/Sound.antt =====
-- The invariant of a response while the handler runs: its frames so far have a legal shape, its
-- counters count the bytes on the wire, and the declared Content-Length bounds them (writer.go).
use reverse_http.Prelude.{
  ℕ, ◌≤◌, ◌≡◌, refl, subst, sym, ◌∙◌, ◌⊎◌, inl, inr, Bool, true, false, not, ◌||◌, Option, none,
  some, List, [], ◌∷◌, ◌++◌, arith, length, Bool-cases, ◌==◌, nat_eq, bytes_eq, bytes_beq, ap,
  if_cases, if◌then◌else◌, Bytes,
}
use reverse_http.Prelude.Int.{ℤ, pos, negsuc}
use reverse_http.Prelude.Table.{lookup, lookup-erase}
use reverse_http.H2.Errors.{Err}
use reverse_http.H2.Writer.{Intent, Header}
use reverse_http.Worker.Response.{
  declare, first_value, content_length_key, parse_uint63, body_allowed_for_status, new_writer,
  ResponseWriter, WriteErr, sending, prepare, is_set,
}
use reverse_http.Worker.Response.Shape.{
  interim, streaming, phase, body_bytes, is_informational, phase-nil, body_bytes-nil, phase-append,
  body_bytes-headers, final_head, final_head-append, or_head, bodiless, number_in, declared_in,
}
use mathlib.Core.Bool.{true≢false}

-- The Content-Length that the writer holds: -1 for none.
abbrev pub as_declared : Option ℕ → ℤ
as_declared none = negsuc 0
as_declared (some n) = pos n

-- The final HEADERS on the wire, and what the writer has taken over from it.
abbrev pub Headed : List Intent → ResponseWriter → Type 0
Headed log rsp =
    (h : Header) × (final_head log ≡ some (rsp.status, h))
    × (rsp.declared_cl ≡ as_declared (declared_in h))

-- `offered` is how many bytes the handler has passed to `Write`.
pub record Sound (log : List Intent) (offered : ℕ) (rsp : ResponseWriter) : Type 0 where
  pub final : is_informational rsp.status ≡ false
  pub resolved : rsp.prepared ≡ false → rsp.wrote_headers ≡ false
  pub silent : rsp.wrote_headers ≡ false → (phase log ≡ interim) × (length (body_bytes log) ≡ 0)
  pub speaking :
      rsp.wrote_headers ≡ true
      → (phase log ≡ streaming) ⊎ ((phase log ≡ interim) × (is_set rsp.err ≡ true))
  pub counted : rsp.written ≡ pos (length (body_bytes log))
  pub within : length (body_bytes log) ≤ offered
  pub declared :
      (n : ℕ) → rsp.prepared ≡ true → rsp.declared_cl ≡ pos n → length (body_bytes log) ≤ n
  pub bodyless : rsp.no_body ≡ true → rsp.wrote_headers ≡ false
  pub judged : rsp.prepared ≡ true → rsp.no_body ≡ bodiless rsp.is_head rsp.status
  pub poised :
      rsp.prepared ≡ true
      → rsp.no_body ≡ false
      → rsp.wrote_headers ≡ false
      → rsp.declared_cl ≡ as_declared (declared_in rsp.header)
  pub headed : phase log ≡ streaming → Headed log rsp

-- Between the calls of a handler: headers that announce a body are out, or the method and the status
-- are not settled yet.
abbrev pub Resting : ResponseWriter → Type 0
Resting rsp = rsp.prepared ≡ true → rsp.no_body ≡ false → rsp.wrote_headers ≡ true

-- What `prepare` leaves alone, and what holds after it.
pub record Prepared (r v : ResponseWriter) : Type 0 where
  pub now : v.prepared ≡ true
  pub same_wrote : v.wrote_headers ≡ r.wrote_headers
  pub same_written : v.written ≡ r.written
  pub same_err : v.err ≡ r.err
  pub final_still : is_informational r.status ≡ false → is_informational v.status ≡ false
  pub if_before : r.prepared ≡ true → v ≡ r

pub prepare-Prepared : (rsp : ResponseWriter) → Prepared rsp (prepare rsp)
unfolding prepare
prepare-Prepared rsp = ground arith

-- What `prepare` makes of the method, the status and the header.
record Judged (v : ResponseWriter) : Type 0 where
  body : v.no_body ≡ bodiless v.is_head v.status
  length_taken : v.declared_cl ≡ as_declared (declared_in v.header)

declare-Judged :
    (rsp : ResponseWriter) (cl : Bytes) (o : Option ℕ)
    → first_value (lookup content_length_key rsp.header) ≡ cl
    → number_in cl ≡ o
    → rsp.no_body ≡ bodiless rsp.is_head rsp.status
    → rsp.declared_cl ≡ negsuc 0
    → Judged (declare o rsp)
declare-Judged rsp cl (some n) e q b d = record {
  body = b;
  length_taken = sym (ap as_declared (ap number_in e ∙ q));
}
declare-Judged rsp cl none e q b d = record {
  body = b;
  length_taken =
      d
      ∙ sym (
          ap (λ x. as_declared (number_in (first_value x)))
            (lookup-erase content_length_key rsp.header));
}

taken_over :
    (rsp : ResponseWriter) (cl : Bytes)
    → first_value (lookup content_length_key rsp.header) ≡ cl
    → rsp.no_body ≡ bodiless rsp.is_head rsp.status
    → rsp.declared_cl ≡ negsuc 0
    → Judged (if cl == [] then rsp else declare (parse_uint63 cl) rsp)
unfolding bytes_beq
taken_over rsp [] e b d = record {
  body = b;
  length_taken = d ∙ sym (ap (λ x. as_declared (number_in x)) e);
}
taken_over rsp (c ∷ cl) e b d = declare-Judged rsp (c ∷ cl) (parse_uint63 (c ∷ cl)) e refl b d

bodiless_lem :
    (is_head : Bool) (status : ℕ)
    → (is_head || not (body_allowed_for_status status)) ≡ bodiless is_head status
unfolding body_allowed_for_status
bodiless_lem is_head status = ground arith

prepare-Judged : (rsp : ResponseWriter) → rsp.prepared ≡ false → Judged (prepare rsp)
unfolding prepare
prepare-Judged rsp un =
    if_cases Judged rsp.prepared (λ t. absurd (true≢false (sym t ∙ un)))
      λ _.
        let status = if rsp.status == 0 then 200 else rsp.status in
        taken_over
          (record rsp {
            prepared = true;
            status = status;
            no_body = rsp.is_head || not (body_allowed_for_status status);
            declared_cl = negsuc 0;
          })
          (first_value (lookup content_length_key rsp.header)) refl
          (bodiless_lem rsp.is_head status) refl

pub prepare_status :
    (rsp : ResponseWriter) → (rsp.status == 0) ≡ false → (prepare rsp).status ≡ rsp.status
unfolding prepare
prepare_status rsp h = ground arith

pub interim≢streaming : interim ≡ streaming → ⊥
interim≢streaming h = cc

pub fresh-Sound : (is_head : Bool) → Sound [] 0 (new_writer is_head)
fresh-Sound is_head = record {
  final = refl;
  resolved = λ _. refl;
  silent = λ _. (phase-nil, rw body_bytes-nil);
  speaking = λ h. cc;
  counted = rw body_bytes-nil;
  within = rw body_bytes-nil (omega arith);
  declared = λ n h. cc;
  bodyless = λ h. refl;
  judged = λ h. cc;
  poised = λ h. cc;
  headed = λ h. absurd (interim≢streaming (sym phase-nil ∙ h));
}

module _ (log : List Intent) (offered : ℕ) (rsp : ResponseWriter) (f : Sound log offered rsp) where
  prepare_now : rsp.prepared ≡ false → Sound log offered (prepare rsp)
  prepare_now unprepared = record {
    final = p.final_still f.final;
    resolved = λ h. absurd (true≢false (sym p.now ∙ h));
    silent = λ h. f.silent (sym p.same_wrote ∙ h);
    speaking = λ h. absurd (true≢false (sym h ∙ p.same_wrote ∙ quiet));
    counted = p.same_written ∙ f.counted;
    within = f.within;
    declared = λ n _ _. omega (arith, (f.silent quiet).1);
    bodyless = λ _. p.same_wrote ∙ quiet;
    judged = λ _. (prepare-Judged rsp unprepared).body;
    poised = λ _ _ _. (prepare-Judged rsp unprepared).length_taken;
    headed = λ h. absurd (interim≢streaming (sym (f.silent quiet).0 ∙ h));
  }
    where
      p : Prepared rsp (prepare rsp)
      p = prepare-Prepared rsp

      quiet : rsp.wrote_headers ≡ false
      quiet = f.resolved unprepared

  pub prepare-Sound : Sound log offered (prepare rsp)
  prepare-Sound = elim (Bool-cases rsp.prepared) [
    | inl before ↦ subst (Sound log offered) (sym ((prepare-Prepared rsp).if_before before)) f
    | inr unprepared ↦ prepare_now unprepared
  ]

  pub headers_out :
      (id : ℕ)
      → rsp.prepared ≡ true
      → rsp.no_body ≡ false
      → rsp.wrote_headers ≡ false
      → Sound
          (log ++ Intent.resp_headers id rsp.status rsp.header false ∷ [])
          offered
          (record rsp { wrote_headers = true })
  headers_out id p nb quiet = record {
    final = f.final;
    resolved = λ h. absurd (true≢false (sym p ∙ h));
    silent = λ h. cc;
    speaking = λ _. inl (rw (phase-append, (f.silent quiet).0, f.final));
    counted = rw body_bytes-headers f.counted;
    within = rw body_bytes-headers f.within;
    declared = λ n q d. rw body_bytes-headers (f.declared n q d);
    bodyless = λ h. absurd (true≢false (sym h ∙ nb));
    judged = f.judged;
    poised = λ _ _ h. cc;
    headed = λ _. (
      rsp.header,
      final_head-append log (Intent.resp_headers id rsp.status rsp.header false)
          ∙ ap (λ b. or_head (if b then none else some (rsp.status, rsp.header)) (final_head log))
              f.final,
      f.poised p nb quiet,
    );
  }

  pub headers_failed :
      (e : Err)
      → rsp.prepared ≡ true
      → rsp.no_body ≡ false
      → rsp.wrote_headers ≡ false
      → Sound log offered (record rsp { wrote_headers = true; err = some (sending e) })
  headers_failed e p nb quiet = record {
    final = f.final;
    resolved = λ h. absurd (true≢false (sym p ∙ h));
    silent = λ h. cc;
    speaking = λ _. inr ((f.silent quiet).0, refl);
    counted = f.counted;
    within = f.within;
    declared = f.declared;
    bodyless = λ h. absurd (true≢false (sym h ∙ nb));
    judged = f.judged;
    poised = λ _ _ h. cc;
    headed = λ h. absurd (interim≢streaming (sym (f.silent quiet).0 ∙ h));
  }

  -- An error that is latched later spoils nothing.
  pub err-Sound :
      (e : WriteErr) (violated : Bool)
      → Sound log offered (record rsp { err = some e; cl_violated = violated })
  err-Sound e violated = record {
    final = f.final;
    resolved = f.resolved;
    silent = f.silent;
    speaking = λ h. still (f.speaking h);
    counted = f.counted;
    within = f.within;
    declared = f.declared;
    bodyless = f.bodyless;
    judged = f.judged;
    poised = f.poised;
    headed = f.headed;
  }
    where
      still :
          (phase log ≡ streaming) ⊎ ((phase log ≡ interim) × (is_set rsp.err ≡ true))
          → (phase log ≡ streaming) ⊎ ((phase log ≡ interim) × (true ≡ true))
      still (inl h) = inl h
      still (inr h) = inr (h.0, refl)

pub Sound-mono :
    (log : List Intent) (a b : ℕ) (rsp : ResponseWriter) → a ≤ b → Sound log a rsp → Sound log b rsp
Sound-mono log a b rsp h f = record {
  final = f.final;
  resolved = f.resolved;
  silent = f.silent;
  speaking = f.speaking;
  counted = f.counted;
  within = omega (arith, f.within);
  declared = f.declared;
  bodyless = f.bodyless;
  judged = f.judged;
  poised = f.poised;
  headed = f.headed;
}
