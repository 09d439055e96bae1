-- ===== src/H2/Writer/Awaited.antt =====
-- What a caller of `submit` may conclude from the answer (internal/h2/writer.go): the frames of its
-- stream on the wire.
use reverse_http.Prelude.{
  ℕ, zero, suc, ◌≡◌, refl, subst, ap, ◌∙◌, sym, true, false, Option, none, some, List, [], ◌∷◌,
  ◌++◌, if◌then◌else◌, if_cases, append-nil, All, arith, length, nat_eq, nat_beq_iff,
}
use mathlib.Core.Bool.{true≢false}
use reverse_http.Prelude.Table.{lookup}
use reverse_http.H2.Errors.{Err}
use reverse_http.H2.Writer.{
  Intent, Wire, Writer, Framer, answer, drain_queue, exit_writer, go_on, take_one, take_from,
  take_intent, take_many,
}
use reverse_http.H2.Writer.Headers.{Lowered}
use reverse_http.H2.Writer.Rendered.{render, Processed, written, failed, process_intent-Processed}
use reverse_http.H2.Writer.Quiet.{
  is_of, frames, frames-snoc, IsForeign, is_err, Ready, exit-Left, drain-answered, Left-Quiet,
  foreign_frame,
}

-- What the caller that waits for `t` finds when the writer is through with its intent.
pub record Answered (id t : ℕ) (i : Intent) (w v : Writer) : Type 0 where
  pub ready : Ready id v
  pub found : (r : Option Err) × (lookup t v.done ≡ some r)
  pub shown : frames id v.wire ≡ frames id w.wire ++ (if is_err found.0 then [] else render i ∷ [])

take_many-dead : (framer : Framer) (n : ℕ) (w : Writer) → w.dead ≡ true → take_many framer n w ≡ w
unfolding take_many take_intent
take_many-dead framer zero w d = refl
take_many-dead framer (suc n) w d =
    if_cases (λ v. take_many framer n v ≡ w) w.dead (λ _. take_many-dead framer n w d)
      λ alive. absurd (true≢false (sym d ∙ alive))

exit_answered :
    (t : ℕ) (i : Intent) (v : Writer) (e : Err) (q : List (Option ℕ × Intent))
    → v.queue ≡ q ++ (some t, i) ∷ []
    → lookup t (exit_writer (some e) v).done ≡ some (some e)
unfolding exit_writer
exit_answered t i v e q eq =
    let x = record v { write_err = some e; dead = true } in
    subst (λ z. lookup t (drain_queue e z x).done ≡ some (some e)) (sym eq)
      (drain-answered e t i q x)

module _ (framer : Framer) (id t : ℕ) (i : Intent) (mine : is_of id (render i) ≡ true) where
  abbrev last_one : List (Option ℕ × Intent)
  last_one = (some t, i) ∷ []

  own_frame : (xs : List Wire) → frames id (xs ++ render i ∷ []) ≡ frames id xs ++ render i ∷ []
  own_frame xs = frames-snoc id xs (render i) ∙ ap (λ l. frames id xs ++ l) (kept (render i) mine)
    where
      kept : (y : Wire) → is_of id y ≡ true → frames id (y ∷ []) ≡ y ∷ []
      kept y g = rw g

  own-Answered :
      (w : Writer) (r : Writer × Option Err)
      → w.dead ≡ false
      → Processed (record w { queue = [] }) (render i) r
      → Answered id t i w (go_on r.1 (answer (some t) r.1 r.0))
  unfolding answer exit_writer drain_queue lookup
  own-Answered w r alive (written l) = record {
    ready = record {
      names = l;
      foreign = tt;
      short = omega arith;
      excused = λ d. absurd (true≢false (sym d ∙ alive));
    };
    found = (none, ground (arith, nat_beq_iff t t));
    shown = own_frame w.wire;
  }
  own-Answered w r alive (failed l e) = record {
    ready = record { names = l; foreign = tt; short = omega arith; excused = λ _. refl };
    found = (some e, ground (arith, nat_beq_iff t t));
    shown = sym (append-nil (frames id w.wire));
  }

  -- Where a queued intent of somebody else fails, the caller gets that error.
  failed-Answered :
      (n : ℕ) (e : Err) (w v : Writer) (q : List (Option ℕ × Intent))
      → Lowered v.lower_names
      → v.wire ≡ w.wire
      → v.queue ≡ q ++ last_one
      → Answered id t i w (take_many framer n (exit_writer (some e) v))
  failed-Answered n e w v q l same eq =
      let x = exit-Left (some e) v in
      subst (Answered id t i w) (sym (take_many-dead framer n (exit_writer (some e) v) x.is_dead))
        (record {
          ready = (Left-Quiet id l x).ready;
          found = (some e, exit_answered t i v e q eq);
          shown = ap (frames id) (x.same_wire ∙ same) ∙ sym (append-nil (frames id w.wire));
        })

  later-Answered :
      {w v z : Writer}
      → frames id v.wire ≡ frames id w.wire
      → Answered id t i v z
      → Answered id t i w z
  later-Answered e a = record {
    ready = a.ready;
    found = a.found;
    shown = a.shown ∙ ap (λ l. l ++ (if is_err a.found.0 then [] else render i ∷ [])) e;
  }

  step-Answered :
      (w : Writer) (s : Option ℕ) (j : Intent) (q : List (Option ℕ × Intent))
      (r : Writer × Option Err)
      → w.dead ≡ false
      → IsForeign id (s, j)
      → ((v : Writer)
          → v.dead ≡ false
          → Lowered v.lower_names
          → v.queue ≡ q ++ last_one
          → Answered id t i v (take_many framer (suc (length q)) v))
      → Processed (record w { queue = q ++ last_one }) (render j) r
      → Answered id t i w (take_many framer (suc (length q)) (go_on r.1 (answer s r.1 r.0)))
  unfolding answer
  step-Answered w none j q r alive f next (written l) =
      later-Answered
        (foreign_frame id w (record w { wire = w.wire ++ render j ∷ [] }) (render j) refl f)
        (next _ alive l refl)
  step-Answered w (some s) j q r alive f next (written l) =
      later-Answered
        (foreign_frame id w (record w { wire = w.wire ++ render j ∷ [] }) (render j) refl f)
        (next _ alive l refl)
  step-Answered w none j q r alive f next (failed l e) = failed-Answered _ e w _ q l refl refl
  step-Answered w (some s) j q r alive f next (failed l e) = failed-Answered _ e w _ q l refl refl

  taken :
      (w : Writer) (s : Option ℕ) (j : Intent) (rest : List (Option ℕ × Intent))
      → w.dead ≡ false
      → w.queue ≡ (s, j) ∷ rest
      → take_intent framer w ≡ take_one framer s j rest w
  unfolding take_intent
  taken w s j rest alive e =
      if_cases (λ v. v ≡ take_one framer s j rest w) w.dead
        (λ d. absurd (true≢false (sym d ∙ alive))) λ _. ap (λ q. take_from framer q w) e

  pub waits-Answered :
      (q : List (Option ℕ × Intent)) (w : Writer)
      → w.dead ≡ false
      → Lowered w.lower_names
      → All (IsForeign id) q
      → w.queue ≡ q ++ last_one
      → Answered id t i w (take_many framer (suc (length q)) w)
  unfolding take_many take_one
  waits-Answered [] w alive l fr e =
      subst (Answered id t i w) (sym (taken w (some t) i [] alive e))
        (own-Answered w _ alive (process_intent-Processed framer (record w { queue = [] }) i l))
  waits-Answered ((s, j) ∷ q) w alive l fr e =
      subst (λ v. Answered id t i w (take_many framer (suc (length q)) v))
        (sym (taken w s j (q ++ last_one) alive e))
        (step-Answered w s j q _ alive fr.0 (λ v a n x. waits-Answered q v a n fr.1 x)
          (process_intent-Processed framer (record w { queue = q ++ last_one }) j l))
