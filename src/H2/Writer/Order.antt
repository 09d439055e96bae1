-- ===== src/H2/Writer/Order.antt =====
-- The queue and the wire: what the writer goroutine puts on the wire, and in which order
-- (internal/h2/writer.go).
use reverse_http.Prelude.{
  ℕ, ◌≡◌, refl, subst, not, ◌&&◌, ap, ◌∙◌, sym, true, false, Option, none, some, List, [], ◌∷◌,
  ◌++◌, map, if◌then◌else◌, Bool-cases, inl, inr, if_cases, append_assoc, append-nil, map-append,
  ltb, length,
}
use mathlib.Core.Bool.{true≢false}
use reverse_http.H2.Errors.{Err}
use reverse_http.H2.Writer.{
  Intent, Wire, Writer, Framer, start_writer, answer, drain_queue, exit_writer, go_on, exit_error,
  stop, shutdown_writer, enqueue, take_one, take_from, take_intent, write_q_size,
}
use reverse_http.H2.Writer.Headers.{Lowered, common_lower_names-Lowered}
use reverse_http.H2.Writer.Rendered.{render, Processed, written, failed, process_intent-Processed}

abbrev pub render_queue : List (Option ℕ × Intent) → List Wire
render_queue = map λ q. render q.1

-- `all` is what has been submitted so far. What is not on the wire is a rest of it, and is still
-- queued while the writer runs.
pub record Fifo (all : List Wire) (w : Writer) : Type 0 where
  pub names : Lowered w.lower_names
  pub rest : List Wire
  pub order : w.wire ++ rest ≡ all
  pub queued : w.dead ≡ false → rest ≡ render_queue w.queue

-- What an exit leaves alone.
record Drained (w v : Writer) : Type 0 where
  same_wire : v.wire ≡ w.wire
  same_names : v.lower_names ≡ w.lower_names
  same_dead : v.dead ≡ w.dead
  empty : v.queue ≡ []

answer-same :
    (t : Option ℕ) (err : Option Err) (w : Writer)
    → ((answer t err w).wire ≡ w.wire)
      × ((answer t err w).lower_names ≡ w.lower_names)
      × ((answer t err w).dead ≡ w.dead)
      × ((answer t err w).queue ≡ w.queue)
unfolding answer
answer-same none err w = (refl, refl, refl, refl)
answer-same (some t) err w = (refl, refl, refl, refl)

drain_queue-Drained :
    (e : Err) (q : List (Option ℕ × Intent)) (w : Writer) → Drained w (drain_queue e q w)
unfolding drain_queue
drain_queue-Drained e [] w = record {
  same_wire = refl;
  same_names = refl;
  same_dead = refl;
  empty = refl;
}
drain_queue-Drained e ((none, i) ∷ q) w = drain_queue-Drained e q w
drain_queue-Drained e ((some t, i) ∷ q) w =
    let d = drain_queue-Drained e q (answer (some t) (some e) w) in
    record {
      same_wire = d.same_wire;
      same_names = d.same_names;
      same_dead = d.same_dead;
      empty = d.empty;
    }

exit_writer-Fifo :
    (e : Option Err) (w : Writer) (rest : List Wire)
    → Lowered w.lower_names
    → Fifo (w.wire ++ rest) (exit_writer e w)
unfolding exit_writer
exit_writer-Fifo e w rest l = record {
  names = rw d.same_names l;
  rest = rest;
  order = rw d.same_wire;
  queued = λ alive. absurd (true≢false (sym d.same_dead ∙ alive));
}
  where
    v : Writer
    v = record w { write_err = some (exit_error e); dead = true }

    d : Drained v (drain_queue (exit_error e) w.queue v)
    d = drain_queue-Drained (exit_error e) w.queue v

step_of_Processed :
    (w : Writer) (t : Option ℕ) (i : Intent) (rest : List (Option ℕ × Intent))
    (r : Writer × Option Err)
    → Processed (record w { queue = rest }) (render i) r
    → Fifo (w.wire ++ render i ∷ render_queue rest) (go_on r.1 (answer t r.1 r.0))
unfolding answer
step_of_Processed w none i rest r (written l) = record {
  names = l;
  rest = render_queue rest;
  order = append_assoc w.wire _ _;
  queued = λ _. refl;
}
step_of_Processed w (some t) i rest r (written l) = record {
  names = l;
  rest = render_queue rest;
  order = append_assoc w.wire _ _;
  queued = λ _. refl;
}
step_of_Processed w none i rest r (failed l e) = exit_writer-Fifo (some e) _ _ l
step_of_Processed w (some t) i rest r (failed l e) = exit_writer-Fifo (some e) _ _ l

take_from-Fifo :
    (framer : Framer) (w : Writer) (q : List (Option ℕ × Intent))
    → Lowered w.lower_names
    → w.queue ≡ q
    → Fifo (w.wire ++ render_queue q) (take_from framer q w)
unfolding take_one
take_from-Fifo framer w [] l e = record { names = l; rest = []; order = refl; queued = λ _. rw e }
take_from-Fifo framer w ((t, i) ∷ q) l e =
    step_of_Processed w t i q _ (process_intent-Processed framer (record w { queue = q }) i l)

pub take_intent-Fifo :
    (framer : Framer) (all : List Wire) (w : Writer) → Fifo all w → Fifo all (take_intent framer w)
unfolding take_intent
take_intent-Fifo framer all w f =
    if_cases (Fifo all) w.dead (λ _. f)
      λ alive.
        subst (λ a. Fifo a (take_from framer w.queue w))
          (ap (λ r. w.wire ++ r) (sym (f.queued alive)) ∙ f.order)
          (take_from-Fifo framer w w.queue f.names refl)

pub stop-Fifo : (all : List Wire) (w : Writer) → Fifo all w → Fifo all (stop w)
unfolding stop
stop-Fifo all w f =
    if_cases (Fifo all) (not w.dead && w.shutdown)
      (λ _.
        subst (λ a. Fifo a (exit_writer none w)) f.order (exit_writer-Fifo none w f.rest f.names))
      λ _. f

pub shutdown_writer-Fifo :
    (all : List Wire) (w : Writer) → Fifo all w → Fifo all (shutdown_writer w)
unfolding shutdown_writer
shutdown_writer-Fifo all w f = record {
  names = f.names;
  rest = f.rest;
  order = f.order;
  queued = f.queued;
}

-- What an attempt to enqueue adds to the submitted intents: nothing if the queue is full.
abbrev pub accepted : Intent → Writer → List Wire
accepted i w = if ltb (length w.queue) write_q_size then render i ∷ [] else []

pub enqueue-Fifo :
    (t : Option ℕ) (i : Intent) (all : List Wire) (w : Writer)
    → Fifo all w
    → Fifo (all ++ accepted i w) (enqueue t i w)
unfolding enqueue
enqueue-Fifo t i all w f = elim (Bool-cases (ltb (length w.queue) write_q_size)) [
  | inl room ↦ rw room (record {
    names = f.names;
    rest = f.rest ++ render i ∷ [];
    order = sym (append_assoc w.wire f.rest _) ∙ ap (λ a. a ++ render i ∷ []) f.order;
    queued = λ alive. rw (f.queued alive) (sym (map-append _ w.queue _));
  })
  | inr full ↦ rw (full, append-nil all) f
]

pub data Op : Type 0 where
  enqueues : Option ℕ → Intent → Op
  takes stops shuts_down : Op

module _ (framer : Framer) where
  pub step : Writer → Op → Writer
  step w (enqueues t i) = enqueue t i w
  step w takes = take_intent framer w
  step w stops = stop w
  step w shuts_down = shutdown_writer w

  pub run : Writer → List Op → Writer
  unfolding step
  run w [] = w
  run w (op ∷ ops) = run (step w op) ops

  abbrev submitted_by : Writer → Op → List Wire
  submitted_by w (enqueues t i) = accepted i w
  submitted_by w _ = []

  -- What the goroutines of the connection have put into the queue, in that order.
  pub submitted : Writer → List Op → List Wire
  unfolding step
  submitted w [] = []
  submitted w (op ∷ ops) = submitted_by w op ++ submitted (step w op) ops

  step-Fifo :
      (all : List Wire) (w : Writer) (op : Op)
      → Fifo all w
      → Fifo (all ++ submitted_by w op) (step w op)
  unfolding step
  step-Fifo all w (enqueues t i) f = enqueue-Fifo t i all w f
  step-Fifo all w takes f = rw (append-nil all) (take_intent-Fifo framer all w f)
  step-Fifo all w stops f = rw (append-nil all) (stop-Fifo all w f)
  step-Fifo all w shuts_down f = rw (append-nil all) (shutdown_writer-Fifo all w f)

  run-Fifo :
      (all : List Wire) (w : Writer) (ops : List Op)
      → Fifo all w
      → Fifo (all ++ submitted w ops) (run w ops)
  unfolding run submitted
  run-Fifo all w [] f = rw (append-nil all) f
  run-Fifo all w (op ∷ ops) f =
      rw (← append_assoc)
        (run-Fifo (all ++ submitted_by w op) (step w op) ops (step-Fifo all w op f))

  -- Whatever the order in which goroutines submit, the writer takes intents, the framer fails and
  -- the writer is shut down: the wire shows what was submitted, in that order, up to a point. While
  -- the writer runs, what is missing is what is still queued.
  pub wire_in_order : (ops : List Op) → Fifo (submitted start_writer ops) (run start_writer ops)
  wire_in_order ops =
      run-Fifo [] start_writer ops
        (record { names = common_lower_names-Lowered; rest = []; order = refl; queued = λ _. refl })
