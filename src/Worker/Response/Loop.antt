-- ===== src/Worker/Response/Loop.antt =====
-- The loop of `Write` (writer.go): it ends, sends a prefix of the handler's bytes in order, and all
-- of them unless it reports an error.
use mathlib.Core.Bool.{true≢false}
use reverse_http.Prelude.{
  ℕ, zero, suc, ◌+◌, ◌≤◌, ◌<◌, ◌^◌, ◌≡◌, refl, subst, ap, sym, ◌∙◌, inl, Bool, true, false, Option,
  none, some, [], ◌∷◌, ◌++◌, arith, length, take, drop, length-append, length-take, length-drop,
  take-append-drop, append_assoc, append-nil, Bytes,
}
use reverse_http.Prelude.Int.{
  ℤ, pos, negsuc, pos_part, ◌+ℤ◌, ◌≤ℤ◌, ◌<ℤ◌, min_ℤ, int32, int32_fits, int64, int64_fits, int_laws,
}
use reverse_http.H2.Errors.{Err}
use reverse_http.H2.Writer.{Intent}
use reverse_http.Worker.Link.{Link}
use reverse_http.Worker.Response.{
  ResponseWriter, WriteErr, sending, conn_dead, Outcome, returns, blocks, out_of_fuel, Written,
  Loop, chunk_sent, reserved, write_loop,
}
use reverse_http.Worker.Response.Shape.{
  streaming, phase, phase-append, body_bytes, body_bytes-data, final_head, final_head-append,
}
use reverse_http.Worker.Response.Sound.{Sound, err-Sound}

-- The call returns with `P`, or waits for credit for ever; it does not run on.
abbrev pub Ends {ℓ} : {A : Type ℓ} → (A → Type 0) → Outcome A → Type 0
Ends P (returns a) = P a
Ends P blocks = Unit
Ends P out_of_fuel = ⊥

length_taken : (n : ℕ) (p : Bytes) → n ≤ length p → length (take n p) ≡ n
length_taken n p h = omega (arith, length-take n p)

want_bounds :
    (n : ℕ) (max_frame : ℤ)
    → 0 < n
    → n < 2 ^ 31
    → pos 0 <ℤ max_frame
    → (pos 0 <ℤ min_ℤ (int32 (pos n)) max_frame) × (min_ℤ (int32 (pos n)) max_frame ≤ℤ pos n)
unfolding min_ℤ
want_bounds n max_frame p h m = rw (int32_fits (pos n) (omega arith)) (ground arith)

pub taken_bounds :
    (got want : ℤ) (n : ℕ)
    → pos 0 <ℤ got
    → got ≤ℤ want
    → want ≤ℤ pos n
    → (0 < pos_part got) × (pos_part got ≤ n)
taken_bounds (pos k) want n p q h = (omega arith, omega arith)
taken_bounds (negsuc k) want n p q h = absurd (omega arith)

pub add_count : (a n : ℕ) → a + n < 2 ^ 63 → int64 (pos a +ℤ pos n) ≡ pos (a + n)
add_count a n h =
    let e : pos a +ℤ pos n ≡ pos (a + n) = omega int_laws in
    rw e (int64_fits (pos (a + n)) (omega arith))

module _ (link : Link) where
  open link use {State, log, send_data}

  abbrev sent_bytes : State → ℕ
  sent_bytes s = length (body_bytes (log s))

  -- A response whose headers are out, with `p` still to be written.
  pub record Ready (offered : ℕ) (s : State) (rsp : ResponseWriter) (p : Bytes) : Type 0 where
    pub sound : Sound (log s) offered rsp
    pub on : rsp.wrote_headers ≡ true
    pub clean : phase (log s) ≡ streaming
    pub no_err : rsp.err ≡ none
    pub room : sent_bytes s + length p ≤ offered
    pub limit :
        (n : ℕ) → rsp.prepared ≡ true → rsp.declared_cl ≡ pos n → sent_bytes s + length p ≤ n
    pub small : offered < 2 ^ 63

  -- What a call of `Write` has done with `p`.
  pub record Wrote (offered : ℕ) (before : Bytes) (p : Bytes) (total : ℕ) (r : Written link)
      : Type 0 where
    pub sound : Sound (log r.0) offered r.1
    pub sent : Bytes
    pub unsent : Bytes
    pub split : sent ++ unsent ≡ p
    pub on_wire : body_bytes (log r.0) ≡ before ++ sent
    pub count : r.2 ≡ total + length sent
    pub complete : r.3 ≡ none → unsent ≡ []
    pub latched : r.1.err ≡ r.3
    pub still_on : r.1.wrote_headers ≡ true

  -- Nothing more goes out, and the error says so.
  stop-Wrote :
      (offered : ℕ) (s s' : State) (rsp : ResponseWriter) (p : Bytes) (total : ℕ) (e : WriteErr)
      → Ready offered s rsp p
      → log s' ≡ log s
      → Wrote offered (body_bytes (log s)) p total (s', record rsp { err = some e }, total, some e)
  stop-Wrote offered s s' rsp p total e r same = record {
    sound = rw same (err-Sound (log s) offered rsp r.sound e rsp.cl_violated);
    sent = [];
    unsent = p;
    split = refl;
    on_wire = rw (same, append-nil) refl;
    count = omega arith;
    complete = λ h. cc;
    latched = refl;
    still_on = r.on;
  }

  -- After a chunk of `n` bytes the rest is still ready to go.
  chunk-Ready :
      (offered : ℕ) (s s' : State) (rsp : ResponseWriter) (p : Bytes) (n : ℕ)
      → n ≤ length p
      → Ready offered s rsp p
      → log s' ≡ log s ++ Intent.body link.id (take n p) false ∷ []
      → Ready offered s' (record rsp { written = int64 (rsp.written +ℤ pos n) }) (drop n p)
  chunk-Ready offered s s' rsp p n h r e = record {
    sound = record {
      final = r.sound.final;
      resolved = r.sound.resolved;
      silent = λ q. absurd (true≢false (sym r.on ∙ q));
      speaking = λ _. inl still;
      counted = rw r.sound.counted (add_count (sent_bytes s) n small_sum ∙ ap pos (sym bytes));
      within = omega (arith, bytes, r.room);
      declared = λ m q d. omega (arith, bytes, r.limit m q d);
      bodyless = r.sound.bodyless;
      judged = r.sound.judged;
      poised = r.sound.poised;
      headed = λ _.
          (let x = r.sound.headed r.clean in
            (x.0, ap final_head e ∙ final_head-append (log s) _ ∙ x.1, x.2));
    };
    on = r.on;
    clean = still;
    no_err = r.no_err;
    room = omega (arith, bytes, length-drop n p, r.room);
    limit = λ m q d. omega (arith, bytes, length-drop n p, r.limit m q d);
    small = r.small;
  }
    where
      still : phase (log s') ≡ streaming
      still = rw (e, phase-append, r.clean)

      bytes : sent_bytes s' ≡ sent_bytes s + n
      bytes =
          rw (e, body_bytes-data)
            (omega (arith, length-append (body_bytes (log s)) (take n p), length_taken n p h))

      small_sum : sent_bytes s + n < 2 ^ 63
      small_sum = omega (arith, r.room, r.small)

  -- The rest of the loop, seen from one of its rounds.
  abbrev Continues : ℕ → Loop link → ℕ → Type 0
  Continues offered next bound =
      (s : State) (rsp : ResponseWriter) (p : Bytes) (total : ℕ)
      → length p < bound
      → length p < 2 ^ 31
      → Ready offered s rsp p
      → Ends (Wrote offered (body_bytes (log s)) p total) (next s rsp p total)

  -- The chunk, and then what the rest of the loop has done.
  chunk-Wrote :
      (offered : ℕ) (before : Bytes) (p : Bytes) (total n : ℕ) (o : Outcome (Written link))
      → n ≤ length p
      → Ends (Wrote offered (before ++ take n p) (drop n p) (total + n)) o
      → Ends (Wrote offered before p total) o
  chunk-Wrote offered before p total n blocks h w = w
  chunk-Wrote offered before p total n out_of_fuel h w = w
  chunk-Wrote offered before p total n (returns r) h w = record {
    sound = w.sound;
    sent = take n p ++ w.sent;
    unsent = w.unsent;
    split =
        append_assoc (take n p) w.sent w.unsent
        ∙ ap (λ q. take n p ++ q) w.split
        ∙ take-append-drop n p;
    on_wire = w.on_wire ∙ append_assoc before (take n p) w.sent;
    count = omega (arith, w.count, length-append (take n p) w.sent, length_taken n p h);
    complete = w.complete;
    latched = w.latched;
    still_on = w.still_on;
  }

  sent-Wrote :
      (next : Loop link) (offered bound : ℕ) (s s' : State) (rsp : ResponseWriter) (p : Bytes)
      (total n : ℕ)
      → Continues offered next bound
      → 0 < n
      → n ≤ length p
      → length p ≤ bound
      → length p < 2 ^ 31
      → Ready offered s rsp p
      → log s' ≡ log s
      → (r : State × Option Err)
      → (r.1 ≡ none → log r.0 ≡ log s' ++ Intent.body link.id (take n p) false ∷ [])
      → ((e : Err) → r.1 ≡ some e → log r.0 ≡ log s')
      → Ends (Wrote offered (body_bytes (log s)) p total) (chunk_sent link next rsp p total n r)
  sent-Wrote next offered bound s s' rsp p total n ih pos_n le_n le_p short ready same (s'', some e)
        sent lost =
      stop-Wrote offered s s'' rsp p total (sending e) ready (lost e refl ∙ same)
  sent-Wrote next offered bound s s' rsp p total n ih pos_n le_n le_p short ready same (s'', none)
        sent lost =
      chunk-Wrote offered (body_bytes (log s)) p total n _ le_n (
        subst
          (λ b. Ends (Wrote offered b (drop n p) (total + n)) (
            next s'' (record rsp { written = int64 (rsp.written +ℤ pos n) }) (drop n p)
              (total + n)))
          wire
          (ih s'' _ (drop n p) (total + n) (omega (arith, length-drop n p))
            (omega (arith, length-drop n p)) (chunk-Ready offered s s'' rsp p n le_n ready out)))
    where
      out : log s'' ≡ log s ++ Intent.body link.id (take n p) false ∷ []
      out = sent refl ∙ ap (λ l. l ++ Intent.body link.id (take n p) false ∷ []) same

      wire : body_bytes (log s'') ≡ body_bytes (log s) ++ take n p
      wire = ap body_bytes out ∙ body_bytes-data (log s) link.id (take n p) false

  reserved-Wrote :
      (next : Loop link) (offered bound : ℕ) (s : State) (rsp : ResponseWriter) (p : Bytes)
      (total : ℕ) (want : ℤ)
      → Continues offered next bound
      → length p ≤ bound
      → length p < 2 ^ 31
      → Ready offered s rsp p
      → pos 0 <ℤ want
      → want ≤ℤ pos (length p)
      → (o : Option (State × ℤ × Bool)) → link.reserve s want ≡ o
      → Ends (Wrote offered (body_bytes (log s)) p total) (reserved link next rsp p total o)
  reserved-Wrote next offered bound s rsp p total want ih b short ready w le none e = tt
  reserved-Wrote next offered bound s rsp p total want ih b short ready w le (some (s', got, true))
        e =
      stop-Wrote offered s s' rsp p total conn_dead ready (link.reserve_log s s' want got true e)
  reserved-Wrote next offered bound s rsp p total want ih b short ready w le (some (s', got, false))
        e =
      let g = link.reserve_grant s s' want got w e in
      let n = pos_part got in
      let k = taken_bounds got want (length p) g.0 g.1 le in
      sent-Wrote next offered bound s s' rsp p total n ih k.0 k.1 b short ready
        (link.reserve_log s s' want got false e) (send_data s' (take n p) false)
        (link.data_sent s' (take n p) false) (link.data_lost s' (take n p) false)

  pub write_loop-Wrote :
      (offered : ℕ) (fuel : ℕ) (max_frame : ℤ) (s : State) (rsp : ResponseWriter) (p : Bytes)
      (total : ℕ)
      → pos 0 <ℤ max_frame
      → length p < 2 ^ 31
      → length p < fuel
      → Ready offered s rsp p
      → Ends
          (Wrote offered (body_bytes (log s)) p total)
          (write_loop link fuel max_frame s rsp p total)
  unfolding write_loop
  write_loop-Wrote offered zero max_frame s rsp p total m short enough ready = absurd (omega arith)
  write_loop-Wrote offered (suc fuel) max_frame s rsp [] total m short enough ready = record {
    sound = ready.sound;
    sent = [];
    unsent = [];
    split = refl;
    on_wire = rw append-nil;
    count = omega arith;
    complete = λ _. refl;
    latched = ready.no_err;
    still_on = ready.on;
  }
  write_loop-Wrote offered (suc fuel) max_frame s rsp (b ∷ p) total m short enough ready =
      let w = want_bounds (length (b ∷ p)) max_frame (omega arith) short m in
      reserved-Wrote (write_loop link fuel max_frame) offered fuel s rsp (b ∷ p) total _
        (λ s' rsp' p' total' lt short' ready'.
          write_loop-Wrote offered fuel max_frame s' rsp' p' total' m short' lt ready')
        (omega arith) short ready w.0 w.1 _ refl
