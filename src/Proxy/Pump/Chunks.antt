-- ===== src/Proxy/Pump/Chunks.antt =====
-- One buffer of `streamRequestBody` (internal/proxy/forward.go), in chunks as flow control grants them.
use reverse_http.Prelude.{
  ℕ, zero, suc, ◌≤◌, ◌<◌, ◌^◌, ◌≡◌, refl, subst, ap, sym, ◌∙◌, Bool, true, false, Option, none,
  some, List, [], ◌∷◌, ◌++◌, arith, length, take, drop, length-drop, take-append-drop, append_assoc,
  append-nil, Bytes, All,
}
use reverse_http.Prelude.Int.{ℤ, pos, pos_part, ◌≤ℤ◌, ◌<ℤ◌, int32, int32_fits}
use reverse_http.H2.Errors.{Err}
use reverse_http.H2.Writer.{Intent}
use reverse_http.Proxy.Pump.{Stop, finished, conn_dead, sending, Sent, chunk_out, granted, send_all}
use reverse_http.Worker.Link.{Link}
use reverse_http.Worker.Response.{returns, blocks, out_of_fuel}
use reverse_http.Worker.Response.Loop.{Ends, taken_bounds}
use reverse_http.Worker.Response.Shape.{body_bytes, body_bytes-data}

-- A DATA frame of the stream without END_STREAM.
abbrev pub IsData : ℕ → Intent → Type 0
IsData id (Intent.body i bytes false) = i ≡ id
IsData id _ = ⊥

abbrev pub is_finished : Stop → Bool
is_finished finished = true
is_finished _ = false

module _ (link : Link) where
  open link use {State, log, send_data}

  -- What the inner loop has done with `p`, after the frames `before`.
  pub record Went (before : List Intent) (p : Bytes) (r : State × Option Stop) : Type 0 where
    pub sent : Bytes
    pub unsent : Bytes
    pub split : sent ++ unsent ≡ p
    pub on_wire : body_bytes (log r.0) ≡ body_bytes before ++ sent
    pub complete : r.1 ≡ none → unsent ≡ []
    pub frames : List Intent
    pub plain : All (IsData link.id) frames
    pub out : log r.0 ≡ before ++ frames
    pub unfinished : (stop : Stop) → r.1 ≡ some stop → is_finished stop ≡ false

  abbrev pub WentFrom : State → Bytes → State × Option Stop → Type 0
  WentFrom s = Went (log s)

  stop-Went :
      (s v : State) (p : Bytes) (stop : Stop)
      → is_finished stop ≡ false
      → log v ≡ log s
      → WentFrom s p (v, some stop)
  stop-Went s v p stop unended e = record {
    sent = [];
    unsent = p;
    split = refl;
    on_wire = rw (e, append-nil) refl;
    complete = λ h. cc;
    frames = [];
    plain = tt;
    out = e ∙ sym (append-nil (log s));
    unfinished = λ x h. (let q : stop ≡ x = cc in ap is_finished (sym q) ∙ unended);
  }

  chunk-Went :
      (before : List Intent) (p : Bytes) (n : ℕ) (o : Sent link)
      → Ends (Went (before ++ Intent.body link.id (take n p) false ∷ []) (drop n p)) o
      → Ends (Went before p) o
  chunk-Went before p n blocks w = w
  chunk-Went before p n out_of_fuel w = w
  chunk-Went before p n (returns r) w = record {
    sent = take n p ++ w.sent;
    unsent = w.unsent;
    split =
        append_assoc (take n p) w.sent w.unsent
        ∙ ap (λ q. take n p ++ q) w.split
        ∙ take-append-drop n p;
    on_wire =
        w.on_wire
        ∙ ap (λ b. b ++ w.sent) (body_bytes-data before link.id (take n p) false)
        ∙ append_assoc (body_bytes before) (take n p) w.sent;
    complete = w.complete;
    frames = Intent.body link.id (take n p) false ∷ w.frames;
    plain = (refl, w.plain);
    out = w.out ∙ append_assoc before (Intent.body link.id (take n p) false ∷ []) w.frames;
    unfinished = w.unfinished;
  }

  -- The rest of the inner loop, seen from one of its rounds.
  abbrev Continues : (State → Bytes → Sent link) → ℕ → Type 0
  Continues next bound =
      (s : State) (p : Bytes)
      → length p < bound
      → length p < 2 ^ 31
      → Ends (WentFrom s p) (next s p)

  out-Went :
      (next : State → Bytes → Sent link) (bound : ℕ) (s v : State) (p : Bytes) (n : ℕ)
      → Continues next bound
      → 0 < n
      → n ≤ length p
      → length p ≤ bound
      → length p < 2 ^ 31
      → log v ≡ log s
      → (r : State × Option Err)
      → (r.1 ≡ none → log r.0 ≡ log v ++ Intent.body link.id (take n p) false ∷ [])
      → ((e : Err) → r.1 ≡ some e → log r.0 ≡ log v)
      → Ends (WentFrom s p) (chunk_out link next (drop n p) r)
  out-Went next bound s v p n ih pos_n le_n le_p short same (w, some e) sent lost =
      stop-Went s w p (sending e) refl (lost e refl ∙ same)
  out-Went next bound s v p n ih pos_n le_n le_p short same (w, none) sent lost =
      chunk-Went (log s) p n (next w (drop n p)) (
        subst (λ l. Ends (Went l (drop n p)) (next w (drop n p)))
          (sent refl ∙ ap (λ l. l ++ Intent.body link.id (take n p) false ∷ []) same)
          (ih w (drop n p) (omega (arith, length-drop n p)) (omega (arith, length-drop n p))))

  granted-Went :
      (next : State → Bytes → Sent link) (bound : ℕ) (s : State) (p : Bytes) (want : ℤ)
      → Continues next bound
      → length p ≤ bound
      → length p < 2 ^ 31
      → pos 0 <ℤ want
      → want ≤ℤ pos (length p)
      → (o : Option (State × ℤ × Bool)) → link.reserve s want ≡ o
      → Ends (WentFrom s p) (granted link next p o)
  granted-Went next bound s p want ih b short w le none e = tt
  granted-Went next bound s p want ih b short w le (some (v, got, true)) e =
      stop-Went s v p conn_dead refl (link.reserve_log s v want got true e)
  granted-Went next bound s p want ih b short w le (some (v, got, false)) e =
      let g = link.reserve_grant s v want got w e in
      let n = pos_part got in
      let k = taken_bounds got want (length p) g.0 g.1 le in
      out-Went next bound s v p n ih k.0 k.1 b short (link.reserve_log s v want got false e)
        (send_data v (take n p) false) (link.data_sent v (take n p) false)
        (link.data_lost v (take n p) false)

  pub send_all-Went :
      (fuel : ℕ) (s : State) (p : Bytes)
      → length p < fuel
      → length p < 2 ^ 31
      → Ends (WentFrom s p) (send_all link fuel s p)
  unfolding send_all
  send_all-Went zero s p enough short = absurd (omega arith)
  send_all-Went (suc fuel) s [] enough short = record {
    sent = [];
    unsent = [];
    split = refl;
    on_wire = rw append-nil;
    complete = λ _. refl;
    frames = [];
    plain = tt;
    out = sym (append-nil (log s));
    unfinished = λ x h. cc;
  }
  send_all-Went (suc fuel) s (b ∷ p) enough short =
      let fits : int32 (pos (length (b ∷ p))) ≡ pos (length (b ∷ p)) = int32_fits _ (omega arith) in
      granted-Went (send_all link fuel) fuel s (b ∷ p) _
        (λ v q lt short'. send_all-Went fuel v q lt short') (omega arith) short
        (rw fits (omega arith)) (rw fits (omega arith)) _ refl
