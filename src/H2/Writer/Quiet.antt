-- ===== src/H2/Writer/Quiet.antt =====
-- The frames of one stream on the wire, while the writer works for the others
-- (internal/h2/writer.go).
use reverse_http.Prelude.{
  ℕ, ◌≤◌, ◌≡◌, refl, subst, ap, ◌∙◌, sym, Bool, true, false, Option, none, some, List, [], ◌∷◌,
  ◌++◌, if◌then◌else◌, if_cases, append-nil, All, arith, ltb, length, ◌==◌, nat_eq, nat_beq_iff,
}
use mathlib.Core.Bool.{true≢false}
use reverse_http.Prelude.Table.{lookup}
use reverse_http.H2.Errors.{Err}
use reverse_http.H2.Writer.{
  Intent, Wire, Writer, Framer, answer, drain_queue, exit_writer, go_on, exit_error, take_one,
  take_from, take_intent, make_room, write_q_size,
}
use reverse_http.H2.Writer.Headers.{Lowered}
use reverse_http.H2.Writer.Rendered.{render, Processed, written, failed, process_intent-Processed}

-- HEADERS and DATA of the stream `id`.
abbrev pub is_of : ℕ → Wire → Bool
is_of id (Wire.headers j fields end_stream) = j == id
is_of id (Wire.body j bytes end_stream) = j == id
is_of id _ = false

abbrev pub frames : ℕ → List Wire → List Wire
frames id [] = []
frames id (x ∷ xs) = if is_of id x then x ∷ frames id xs else frames id xs

pub frames-snoc :
    (id : ℕ) (xs : List Wire) (x : Wire)
    → frames id (xs ++ x ∷ []) ≡ frames id xs ++ frames id (x ∷ [])
frames-snoc id [] x = refl
frames-snoc id (y ∷ xs) x =
    if_cases
      (λ l.
        (if is_of id y then y ∷ frames id (xs ++ x ∷ []) else frames id (xs ++ x ∷ []))
        ≡ l ++ frames id (x ∷ []))
      (is_of id y) (λ e. rw e (ap (λ l. y ∷ l) (frames-snoc id xs x)))
      λ e. rw e (frames-snoc id xs x)

-- A queued intent of somebody else: no HEADERS or DATA of the stream.
abbrev pub IsForeign : ℕ → Option ℕ × Intent → Type 0
IsForeign id q = is_of id (render q.1) ≡ false

abbrev pub is_err : Option Err → Bool
is_err none = false
is_err (some e) = true

-- What the writer keeps, for the caller of the stream `id` while it does not wait.
pub record Ready (id : ℕ) (w : Writer) : Type 0 where
  pub names : Lowered w.lower_names
  pub foreign : All (IsForeign id) w.queue
  pub short : length w.queue ≤ write_q_size
  pub excused : w.dead ≡ true → is_err w.write_err ≡ true

-- How an exit leaves the writer.
pub record Left (e : Err) (w v : Writer) : Type 0 where
  pub same_wire : v.wire ≡ w.wire
  same_names : v.lower_names ≡ w.lower_names
  pub is_dead : v.dead ≡ true
  has_err : v.write_err ≡ some e
  no_queue : v.queue ≡ []

drain-Left :
    (e : Err) (q : List (Option ℕ × Intent)) (w : Writer)
    → w.dead ≡ true
    → w.write_err ≡ some e
    → Left e w (drain_queue e q w)
unfolding drain_queue
drain-Left e [] w d h = record {
  same_wire = refl;
  same_names = refl;
  is_dead = d;
  has_err = h;
  no_queue = refl;
}
drain-Left e ((none, i) ∷ q) w d h = drain-Left e q w d h
drain-Left e ((some t, i) ∷ q) w d h =
    let l = drain-Left e q (answer (some t) (some e) w) d h in
    record {
      same_wire = l.same_wire;
      same_names = l.same_names;
      is_dead = l.is_dead;
      has_err = l.has_err;
      no_queue = l.no_queue;
    }

pub exit-Left : (o : Option Err) (w : Writer) → Left (exit_error o) w (exit_writer o w)
unfolding exit_writer
exit-Left o w =
    let l =
      drain-Left (exit_error o) w.queue (record w { write_err = some (exit_error o); dead = true })
        refl refl in
    record {
      same_wire = l.same_wire;
      same_names = l.same_names;
      is_dead = l.is_dead;
      has_err = l.has_err;
      no_queue = l.no_queue;
    }

-- The last intent of the queue is answered last.
pub drain-answered :
    (e : Err) (t : ℕ) (i : Intent) (q : List (Option ℕ × Intent)) (w : Writer)
    → lookup t (drain_queue e (q ++ (some t, i) ∷ []) w).done ≡ some (some e)
unfolding drain_queue lookup
drain-answered e t i [] w = ground (arith, nat_beq_iff t t)
drain-answered e t i ((none, j) ∷ q) w = drain-answered e t i q w
drain-answered e t i ((some s, j) ∷ q) w = drain-answered e t i q _

-- The writer after a step with the stream's frames as before.
pub record Quiet (id : ℕ) (w v : Writer) : Type 0 where
  pub ready : Ready id v
  pub same_frames : frames id v.wire ≡ frames id w.wire

pub Left-Quiet :
    {e : Err} {w v : Writer} (id : ℕ) → Lowered w.lower_names → Left e w v → Quiet id w v
Left-Quiet {e} {w} {v} id l x = record {
  ready = record {
    names = rw x.same_names l;
    foreign = rw x.no_queue tt;
    short = rw x.no_queue (omega arith);
    excused = λ _. ap is_err x.has_err;
  };
  same_frames = ap (frames id) x.same_wire;
}

pub foreign_frame :
    (id : ℕ) (w v : Writer) (x : Wire)
    → v.wire ≡ w.wire ++ x ∷ []
    → is_of id x ≡ false
    → frames id v.wire ≡ frames id w.wire
foreign_frame id w v x e f =
    ap (frames id) e
    ∙ frames-snoc id w.wire x
    ∙ ap (λ l. frames id w.wire ++ l) (skipped x f)
    ∙ append-nil (frames id w.wire)
  where
    skipped : (y : Wire) → is_of id y ≡ false → frames id (y ∷ []) ≡ []
    skipped y g = rw g

-- An intent of somebody else is processed.
processed-Quiet :
    (id : ℕ) (w : Writer) (t : Option ℕ) (i : Intent) (rest : List (Option ℕ × Intent))
    (r : Writer × Option Err)
    → Ready id w
    → w.dead ≡ false
    → All (IsForeign id) rest
    → length rest ≤ write_q_size
    → IsForeign id (t, i)
    → Processed (record w { queue = rest }) (render i) r
    → Quiet id w (go_on r.1 (answer t r.1 r.0))
unfolding answer
processed-Quiet id w none i rest r h alive fr sh f (written l) = record {
  ready = record {
    names = l;
    foreign = fr;
    short = sh;
    excused = λ d. absurd (true≢false (sym d ∙ alive));
  };
  same_frames = foreign_frame id w (record w { wire = w.wire ++ render i ∷ [] }) (render i) refl f;
}
processed-Quiet id w (some t) i rest r h alive fr sh f (written l) = record {
  ready = record {
    names = l;
    foreign = fr;
    short = sh;
    excused = λ d. absurd (true≢false (sym d ∙ alive));
  };
  same_frames = foreign_frame id w (record w { wire = w.wire ++ render i ∷ [] }) (render i) refl f;
}
processed-Quiet id w none i rest r h alive fr sh f (failed {names} l e) =
    let q = Left-Quiet id l (exit-Left (some e) (record w { queue = rest; lower_names = names })) in
    record { ready = q.ready; same_frames = q.same_frames }
processed-Quiet id w (some t) i rest r h alive fr sh f (failed {names} l e) =
    let q = Left-Quiet id l (
      exit-Left (some e)
        (answer (some t) (some e) (record w { queue = rest; lower_names = names }))) in
    record { ready = q.ready; same_frames = q.same_frames }

take_from-Quiet :
    (framer : Framer) (id : ℕ) (w : Writer) (q : List (Option ℕ × Intent))
    → Ready id w
    → w.dead ≡ false
    → w.queue ≡ q
    → Quiet id w (take_from framer q w)
unfolding take_one
take_from-Quiet framer id w [] h alive e = record { ready = h; same_frames = refl }
take_from-Quiet framer id w ((t, i) ∷ q) h alive e =
    let fr = subst (All (IsForeign id)) e h.foreign in
    let sh = subst (λ x. length x ≤ write_q_size) e h.short in
    processed-Quiet id w t i q _ h alive fr.1 (omega (arith, sh)) fr.0
      (process_intent-Processed framer (record w { queue = q }) i h.names)

pub take_intent-Quiet :
    (framer : Framer) (id : ℕ) (w : Writer) → Ready id w → Quiet id w (take_intent framer w)
unfolding take_intent
take_intent-Quiet framer id w h =
    if_cases (Quiet id w) w.dead (λ _. record { ready = h; same_frames = refl })
      λ alive. take_from-Quiet framer id w w.queue h alive refl

pub make_room-Quiet :
    (framer : Framer) (id : ℕ) (w : Writer) → Ready id w → Quiet id w (make_room framer w)
unfolding make_room
make_room-Quiet framer id w h =
    if_cases (Quiet id w) (ltb (length w.queue) write_q_size)
      (λ _. record { ready = h; same_frames = refl }) λ _. take_intent-Quiet framer id w h
