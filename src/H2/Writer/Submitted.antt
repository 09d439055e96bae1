-- ===== src/H2/Writer/Submitted.antt =====
-- The answer of `submit` (internal/h2/writer.go).
use reverse_http.Prelude.{
  ℕ, suc, ◌+◌, ◌≤◌, ◌<◌, ◌≡◌, refl, subst, ap, ◌∙◌, sym, true, false, Option, none, some, List, [],
  ◌∷◌, ◌++◌, if◌then◌else◌, if_cases, append-nil, All-append, not, ◌&&◌, arith, ltb, length,
  length-append, nat_eq,
}
use mathlib.Core.Bool.{true≢false}
use reverse_http.H2.Errors.{Err}
use reverse_http.H2.Writer.{
  Intent, Writer, Framer, answer, go_on, enqueue, take_one, take_from, take_intent, take_many,
  make_room, write_q_size, submit, submit_async, await, stop,
}
use reverse_http.H2.Writer.Headers.{Lowered}
use reverse_http.H2.Writer.Rendered.{render, Processed, written, failed, process_intent-Processed}
use reverse_http.H2.Writer.Awaited.{Answered, waits-Answered}
use reverse_http.H2.Writer.Quiet.{
  is_of, frames, IsForeign, is_err, Ready, Quiet, exit-Left, Left-Quiet, make_room-Quiet,
}

-- A writer that lives on after a round has room.
round_room :
    (w : Writer) (t : Option ℕ) (i : Intent) (rest : List (Option ℕ × Intent))
    (r : Writer × Option Err)
    → length rest < write_q_size
    → Processed (record w { queue = rest }) (render i) r
    → (go_on r.1 (answer t r.1 r.0)).dead ≡ false
    → length (go_on r.1 (answer t r.1 r.0)).queue < write_q_size
unfolding answer
round_room w none i rest r h (written l) d = h
round_room w (some t) i rest r h (written l) d = h
round_room w none i rest r h (failed {names} l e) d = absurd (
    true≢false
      (sym (exit-Left (some e) (record w { queue = rest; lower_names = names })).is_dead ∙ d))
round_room w (some t) i rest r h (failed {names} l e) d = absurd (
    true≢false (
      sym
        (exit-Left (some e)
          (answer (some t) (some e) (record w { queue = rest; lower_names = names }))).is_dead
      ∙ d))

from_room :
    (framer : Framer) (w : Writer) (q : List (Option ℕ × Intent))
    → Lowered w.lower_names
    → w.queue ≡ q
    → length q ≤ write_q_size
    → (take_from framer q w).dead ≡ false
    → length (take_from framer q w).queue < write_q_size
unfolding take_one
from_room framer w [] l e h d = rw e (omega arith)
from_room framer w ((t, i) ∷ q) l e h d =
    round_room w t i q _ (omega (arith, h))
      (process_intent-Processed framer (record w { queue = q }) i l) d

-- `make_room` leaves room, unless the writer has died.
pub room_made :
    (framer : Framer) (id : ℕ) (w : Writer)
    → Ready id w
    → (make_room framer w).dead ≡ false
    → length (make_room framer w).queue < write_q_size
unfolding make_room take_intent
room_made framer id w h =
    if_cases (λ (v : Writer). v.dead ≡ false → length v.queue < write_q_size)
      (ltb (length w.queue) write_q_size) (λ room d. ground (arith, room))
      λ _.
        if_cases (λ (v : Writer). v.dead ≡ false → length v.queue < write_q_size) w.dead
          (λ dead d. absurd (true≢false (sym dead ∙ d)))
          λ _ d. from_room framer w w.queue h.names refl h.short d

-- An answer of `submit` says what became of the frame.
pub record Told (id : ℕ) (i : Intent) (w : Writer) (r : Writer × Option Err) : Type 0 where
  pub ready : Ready id r.0
  pub told : frames id r.0.wire ≡ frames id w.wire ++ (if is_err r.1 then [] else render i ∷ [])

Answered-Told :
    (id t : ℕ) (i : Intent) (w v : Writer)
    → Answered id t i w v
    → Told id i w (v, elim (await t v) [ some err ↦ err | none ↦ none ])
unfolding await
Answered-Told id t i w v a = record {
  ready = a.ready;
  told =
      a.shown
      ∙ ap (λ o. frames id w.wire ++ (if is_err o then [] else render i ∷ [])) (rw a.found.1);
}

pub enqueue_room :
    (t : Option ℕ) (i : Intent) (w : Writer)
    → length w.queue < write_q_size
    → enqueue t i w ≡ record w { queue = w.queue ++ (t, i) ∷ [] }
unfolding enqueue
enqueue_room t i w room =
    if_cases (λ v. v ≡ record w { queue = w.queue ++ (t, i) ∷ [] })
      (ltb (length w.queue) write_q_size) (λ _. refl) λ full. absurd (ground (arith, full))

-- The writer takes all that is queued, and the caller reads its answer.
abbrev waited : Framer → ℕ → Writer → Writer × Option Err
waited framer t v =
    let z = take_many framer (length v.queue) v in
    (z, elim (await t z) [ some err ↦ err | none ↦ none ])

module _ (framer : Framer) (id : ℕ) (i : Intent) (mine : is_of id (render i) ≡ true) where
  -- The writer with room in its queue takes the intent and is waited for.
  queued-Told :
      (w : Writer)
      → Ready id w
      → w.dead ≡ false
      → length w.queue < write_q_size
      → Told id i w (
          waited framer w.tickets
            (enqueue (some w.tickets) i (record w { tickets = w.tickets + 1 })))
  queued-Told w h alive room =
      let v = record w { tickets = w.tickets + 1; queue = w.queue ++ (some w.tickets, i) ∷ [] } in
      let len : suc (length w.queue) ≡ length v.queue =
        omega (arith, length-append w.queue ((some w.tickets, i) ∷ [])) in
      let a = Answered-Told id w.tickets i v (take_many framer (length v.queue) v) (
        subst (λ n. Answered id w.tickets i v (take_many framer n v)) len
          (waits-Answered framer id w.tickets i mine w.queue v alive h.names h.foreign refl)) in
      subst (λ x. Told id i w (waited framer w.tickets x))
        (sym (enqueue_room (some w.tickets) i (record w { tickets = w.tickets + 1 }) room))
        (record { ready = a.ready; told = a.told })

  -- If the caller is told that there was no error, its frame is on the wire, after all the frames of
  -- its stream; if it is told of an error, no frame was added to them.
  pub submit-Told : (w : Writer) → Ready id w → Told id i w (submit framer w i)
  unfolding submit
  submit-Told w h =
      let q = make_room-Quiet framer id w h in
      let v = make_room framer w in
      if_cases (Told id i w) v.dead
        (λ dead. record {
          ready = q.ready;
          told = rw (q.ready.excused dead) (q.same_frames ∙ sym (append-nil (frames id w.wire)));
        })
        λ alive.
          let a = queued-Told v q.ready alive (room_made framer id w h alive) in
          record {
            ready = a.ready;
            told =
                a.told
                ∙ ap
                    (λ l.
                      l
                      ++ (if is_err
                            (waited framer v.tickets
                              (enqueue (some v.tickets) i (record v { tickets = v.tickets + 1 }))).1
                          then []
                          else render i ∷ []))
                    q.same_frames;
          }

-- Steps of other goroutines leave the caller's frames alone.
pub queued-Quiet :
    (id n : ℕ) (t : Option ℕ) (i : Intent) (w v : Writer)
    → IsForeign id (t, i)
    → length v.queue < write_q_size
    → Quiet id w v
    → Quiet id w (enqueue t i (record v { tickets = n }))
queued-Quiet id n t i w v f room q =
    subst (Quiet id w) (sym (enqueue_room t i (record v { tickets = n }) room)) (record {
      ready = record {
        names = q.ready.names;
        foreign = All-append (IsForeign id) v.queue ((t, i) ∷ []) q.ready.foreign (f, tt);
        short = omega (arith, length-append v.queue ((t, i) ∷ []), room);
        excused = q.ready.excused;
      };
      same_frames = q.same_frames;
    })

pub submit_async-Quiet :
    (framer : Framer) (id : ℕ) (i : Intent) (w : Writer)
    → IsForeign id (none, i)
    → Ready id w
    → Quiet id w (submit_async framer w i)
unfolding submit_async
submit_async-Quiet framer id i w f h =
    let q = make_room-Quiet framer id w h in
    let v = make_room framer w in
    if_cases (Quiet id w) v.dead (λ _. q)
      λ alive. queued-Quiet id v.tickets none i w v f (room_made framer id w h alive) q

pub stop-Quiet : (id : ℕ) (w : Writer) → Ready id w → Quiet id w (stop w)
unfolding stop
stop-Quiet id w h =
    if_cases (Quiet id w) (not w.dead && w.shutdown) (λ _. Left-Quiet id h.names (exit-Left none w))
      λ _. record { ready = h; same_frames = refl }
