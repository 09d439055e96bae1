-- ===== src/Worker/Wired/Valid.antt =====
-- What holds between the calls of a stream, whatever the other goroutines do
-- (internal/h2/writer.go, internal/h2/flow.go).
use reverse_http.Prelude.{ℕ, ◌+◌, ◌≡◌, refl, ◌∙◌, false, some, List, [], ◌∷◌, map, if_cases, arith}
use reverse_http.Prelude.Int.{ℤ, pos, InInt32, int32-InInt32, ltb_ℤ, min_ℤ}
use reverse_http.H2.Flow.{
  SendCredit, Round, returned, parked, broadcast, init_cond, reserve_round, add_conn, add_stream,
  apply_initial_window_delta, mark_dead,
}
use reverse_http.H2.Flow
use reverse_http.H2.Flow.Credit.{adjusted-InInt32}
use reverse_http.H2.Writer.{Intent, Writer, Framer, shutdown_writer, make_room}
use reverse_http.H2.Writer.Rendered.{render}
use reverse_http.H2.Writer.Quiet.{frames, is_of, Ready, Quiet, take_intent-Quiet, make_room-Quiet}
use reverse_http.H2.Writer.Submitted.{submit_async-Quiet, queued-Quiet, room_made, stop-Quiet}
use reverse_http.Worker.Wired.{
  Happening, Shared, begin_submit, happen, happen_all, elapse, elapse_from,
}

pub record Valid {id : ℕ} (s : Shared id) : Type 0 where
  pub ready : Ready id s.writer
  pub shown : frames id s.writer.wire ≡ map render s.put
  pub conn_range : InInt32 s.credit.conn_send_window
  pub window_range : InInt32 s.window

pub record Kept {id : ℕ} (s t : Shared id) : Type 0 where
  pub valid : Valid t
  pub same : t.put ≡ s.put

pub Kept-trans : {id : ℕ} {s t u : Shared id} → Kept s t → Kept t u → Kept s u
Kept-trans a b = record { valid = b.valid; same = b.same ∙ a.same }

Quiet-Kept :
    {id : ℕ} (s : Shared id) (w : Writer)
    → Valid s
    → Quiet id s.writer w
    → Kept s (record s { writer = w })
Quiet-Kept s w v q = record {
  valid = record {
    ready = q.ready;
    shown = q.same_frames ∙ v.shown;
    conn_range = v.conn_range;
    window_range = v.window_range;
  };
  same = refl;
}

shutdown-Quiet : (id : ℕ) (w : Writer) → Ready id w → Quiet id w (shutdown_writer w)
unfolding shutdown_writer
shutdown-Quiet id w r = record {
  ready = record { names = r.names; foreign = r.foreign; short = r.short; excused = r.excused };
  same_frames = refl;
}

pub credit-Kept :
    {id : ℕ} (s : Shared id) (credit : SendCredit) (window : ℤ)
    → Valid s
    → InInt32 credit.conn_send_window
    → InInt32 window
    → Kept s (record s { credit = credit; window = window })
credit-Kept s credit window v c w = record {
  valid = record { ready = v.ready; shown = v.shown; conn_range = c; window_range = w };
  same = refl;
}

-- The windows stay in the range of an int32, whoever reserves.
pub reserve_ranges :
    (sc : SendCredit) (window want : ℤ) (who : ℕ)
    → InInt32 sc.conn_send_window
    → InInt32 window
    → let r = Flow.reserve sc window want who in InInt32 r.0.conn_send_window × InInt32 r.1
unfolding Flow.reserve reserve_round init_cond
reserve_ranges sc window want who c w =
    if_cases P (ltb_ℤ (pos 0) want)
      (λ _.
        if_cases P sc.dead (λ _. (c, w))
          λ _.
            if_cases P (ltb_ℤ (pos 0) (min_ℤ window sc.conn_send_window))
              (λ _. (int32-InInt32 _, int32-InInt32 _)) (λ _. (c, w)))
      λ _. (c, w)
  where
    P : SendCredit × ℤ × Round → Type 0
    P r = InInt32 r.0.conn_send_window × InInt32 r.1

-- Another stream's window may be anything.
other_reserve :
    (sc : SendCredit) (window want : ℤ) (who : ℕ)
    → InInt32 sc.conn_send_window
    → InInt32 (Flow.reserve sc window want who).0.conn_send_window
unfolding Flow.reserve reserve_round init_cond
other_reserve sc window want who c =
    if_cases P (ltb_ℤ (pos 0) want)
      (λ _.
        if_cases P sc.dead (λ _. c)
          λ _.
            if_cases P (ltb_ℤ (pos 0) (min_ℤ window sc.conn_send_window)) (λ _. int32-InInt32 _)
              (λ _. c))
      λ _. c
  where
    P : SendCredit × ℤ × Round → Type 0
    P r = InInt32 r.0.conn_send_window

resized-InInt32 :
    (sc : SendCredit) (size : ℤ)
    → InInt32 sc.conn_send_window
    → InInt32 (apply_initial_window_delta sc size).0.conn_send_window
unfolding apply_initial_window_delta broadcast
resized-InInt32 sc size c = ground arith

begin_submit-Quiet :
    (framer : Framer) (id : ℕ) (i : Intent) (w : Writer)
    → is_of id (render i) ≡ false
    → Ready id w
    → Quiet id w (begin_submit framer w i)
unfolding begin_submit
begin_submit-Quiet framer id i w f h =
    let q = make_room-Quiet framer id w h in
    let v = make_room framer w in
    if_cases (Quiet id w) v.dead (λ _. q)
      λ alive.
        queued-Quiet id (v.tickets + 1) (some v.tickets) i w v f (room_made framer id w h alive) q

module _ (framer : Framer) (id who : ℕ) where
  happen-Kept : (h : Happening id) (s : Shared id) → Valid s → Kept s (happen framer id who h s)
  unfolding mark_dead add_conn add_stream broadcast
  happen-Kept (Happening.submits_async i f) s v =
      Quiet-Kept s _ v (submit_async-Quiet framer id i s.writer f v.ready)
  happen-Kept (Happening.submits i f) s v =
      Quiet-Kept s _ v (begin_submit-Quiet framer id i s.writer f v.ready)
  happen-Kept Happening.takes s v = Quiet-Kept s _ v (take_intent-Quiet framer id s.writer v.ready)
  happen-Kept Happening.shuts s v = Quiet-Kept s _ v (shutdown-Quiet id s.writer v.ready)
  happen-Kept Happening.stops s v = Quiet-Kept s _ v (stop-Quiet id s.writer v.ready)
  happen-Kept Happening.dies s v = credit-Kept s _ _ v v.conn_range v.window_range
  happen-Kept (Happening.reserves want window other) s v =
      credit-Kept s _ _ v (other_reserve s.credit window want other v.conn_range) v.window_range
  happen-Kept (Happening.grows_conn delta) s v =
      credit-Kept s _ _ v (int32-InInt32 _) v.window_range
  happen-Kept (Happening.grows_stream delta) s v =
      credit-Kept s _ _ v v.conn_range (int32-InInt32 _)
  happen-Kept (Happening.resizes size) s v =
      credit-Kept s _ _ v (resized-InInt32 s.credit size v.conn_range)
        (adjusted-InInt32 s.credit size s.window v.window_range)
  happen-Kept (Happening.allows size) s v = record {
    valid = record {
      ready = v.ready;
      shown = v.shown;
      conn_range = v.conn_range;
      window_range = v.window_range;
    };
    same = refl;
  }

  happen_all-Kept :
      (hs : List (Happening id)) (s : Shared id) → Valid s → Kept s (happen_all framer id who hs s)
  happen_all-Kept [] s v = record { valid = v; same = refl }
  happen_all-Kept (h ∷ hs) s v =
      let k = happen-Kept h s v in
      Kept-trans k (happen_all-Kept hs (happen framer id who h s) k.valid)

  pub portion-Kept :
      (hs : List (Happening id)) (rest : List (List (Happening id))) (s : Shared id)
      → Valid s
      → Kept s (happen_all framer id who hs (record s { schedule = rest }))
  portion-Kept hs rest s v =
      let k =
        happen_all-Kept hs (record s { schedule = rest })
          (record {
            ready = v.ready;
            shown = v.shown;
            conn_range = v.conn_range;
            window_range = v.window_range;
          }) in
      record { valid = k.valid; same = k.same }

  pub elapse-Kept : (s : Shared id) → Valid s → Kept s (elapse framer id who s)
  unfolding elapse
  elapse-Kept s v = from s.schedule
    where
      from : (x : List (List (Happening id))) → Kept s (elapse_from framer id who x s)
      from [] = record { valid = v; same = refl }
      from (hs ∷ rest) = portion-Kept hs rest s v
