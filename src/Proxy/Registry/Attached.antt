-- ===== src/Proxy/Registry/Attached.antt =====
-- The set of attached workers and the calls of the hooks (internal/proxy/proxy.go).
use reverse_http.Prelude.{
  ℕ, suc, ◌+◌, ◌≤◌, ◌≡◌, refl, ap, sym, ◌∙◌, true, false, not, ◌||◌, Option, none, some, List, [],
  ◌∷◌, ◌++◌, length, get_elem?, set, total, total-set, total-append, total-ge, get_elem?-set,
  get_elem?-snoc, get_elem?-beyond, append-nil, arith, Each, if◌then◌else◌, if_cases, ◌==◌, nat_eq,
  nat_beq_iff,
}
use reverse_http.Proxy.Registry.{
  Stage, accepting, refused, admitted, appended, serving, ended, removed, leaving, gone, rejected,
  Hook, on_attach, on_detach, Registry, is_present, Move, act, Step, moves, arrives, accept_done,
  shuts, snapshots, placed, moved, step,
}
use reverse_http.Proxy.Registry.Order.{
  stage_listed, at_stage, listed_in, entries, times, times-snoc, Ordered, kept-same, kept-appended,
  kept-removed, present-keep, keep-same,
}

abbrev pub worker_of : Hook → ℕ
worker_of (on_attach w) = w
worker_of (on_detach w) = w

-- The hook calls for one worker, in order.
abbrev pub hooks_of : ℕ → List Hook → List Hook
hooks_of w [] = []
hooks_of w (h ∷ hs) = if worker_of h == w then h ∷ hooks_of w hs else hooks_of w hs

-- The hook calls that a worker has had when its tunnel is at a stage.
abbrev pub hooked : ℕ → Stage → List Hook
hooked w serving = on_attach w ∷ []
hooked w ended = on_attach w ∷ []
hooked w removed = on_attach w ∷ []
hooked w leaving = on_attach w ∷ on_detach w ∷ []
hooked w gone = on_attach w ∷ on_detach w ∷ []
hooked w _ = []

abbrev pub active : Stage → ℕ
active gone = 0
active rejected = 0
active _ = 1

hooks_of-snoc :
    (w : ℕ) (hs : List Hook) (h : Hook)
    → hooks_of w (hs ++ h ∷ []) ≡ hooks_of w hs ++ hooks_of w (h ∷ [])
hooks_of-snoc w [] h = refl
hooks_of-snoc w (k ∷ hs) h = ground (arith, hooks_of-snoc w hs h)

pub record Attached (r : Registry) : Type 0 where
  pub ordered : Ordered r.tunnels r
  pub entered : (w : ℕ) → times w r.order ≡ at_stage entries 0 (get_elem? r.tunnels w)
  pub noted : (w : ℕ) → hooks_of w r.hooks ≡ at_stage (hooked w) [] (get_elem? r.tunnels w)
  pub counted : r.accepts ≡ total active r.tunnels
  pub calm : r.panicked ≡ false

module _ (r : Registry) (att : Attached r) (i : ℕ) where
  entered-here : (st : Stage) → get_elem? r.tunnels i ≡ some st → times i r.order ≡ entries st
  entered-here st at = att.entered i ∙ ap (at_stage entries 0) at

  -- `detach` finds a worker that has been attached.
  present-here : get_elem? r.tunnels i ≡ some ended → is_present i r.workers ≡ true
  present-here at =
      ap (is_present i) att.ordered
      ∙ present-keep (listed_in r.tunnels) i r.order (ap (at_stage stage_listed false) at)
          (omega (arith, entered-here ended at))

  act-orders :
      (m : Move) (st : Stage) {r' : Registry} {st' : Stage}
      → get_elem? r.tunnels i ≡ some st
      → act m i st r ≡ some (r', st')
      → Ordered (set r.tunnels i st') r'
  unfolding act accept_done
  act-orders Move.appends admitted at h =
      ground (arith, kept-appended r i admitted at att.ordered (entered-here admitted at))
  act-orders Move.removes ended at h = ground (
    arith,
    present-here at,
    kept-removed r i ended at removed refl refl att.ordered (entered-here ended at),
  )
  act-orders m st {r'} {st'} at h = ground (arith, kept-same r i st at st')

  act-entered :
      (m : Move) (st : Stage) (w : ℕ) {r' : Registry} {st' : Stage}
      → get_elem? r.tunnels i ≡ some st
      → act m i st r ≡ some (r', st')
      → times w r'.order ≡ (if i == w then entries st' else times w r.order)
  unfolding act accept_done
  act-entered Move.appends admitted w at h =
      ground (arith, times-snoc w i r.order, entered-here admitted at, nat_beq_iff i w)
  act-entered Move.removes ended w at h = ground (arith, entered-here ended at, nat_beq_iff i w)
  act-entered m st w at h = ground (arith, entered-here st at, nat_beq_iff i w)

  noted-here : (st : Stage) → get_elem? r.tunnels i ≡ some st → hooks_of i r.hooks ≡ hooked i st
  noted-here st at = att.noted i ∙ ap (at_stage (hooked i) []) at

  act-noted :
      (m : Move) (st : Stage) (w : ℕ) {r' : Registry} {st' : Stage}
      → get_elem? r.tunnels i ≡ some st
      → act m i st r ≡ some (r', st')
      → hooks_of w r'.hooks ≡ (if i == w then hooked w st' else hooks_of w r.hooks)
  unfolding act accept_done
  act-noted Move.announces appended w at h = ground (
    arith,
    hooks_of-snoc w r.hooks (on_attach i),
    append-nil (hooks_of w r.hooks),
    noted-here appended at,
    nat_beq_iff i w,
  )
  act-noted Move.denounces removed w at h = ground (
    arith,
    hooks_of-snoc w r.hooks (on_detach i),
    append-nil (hooks_of w r.hooks),
    noted-here removed at,
    nat_beq_iff i w,
  )
  act-noted Move.removes ended w at h =
      ground (arith, present-here at, noted-here ended at, nat_beq_iff i w)
  act-noted m st w at h = ground (arith, noted-here st at, nat_beq_iff i w)

  act-counted :
      (m : Move) (st : Stage) {r' : Registry} {st' : Stage}
      → act m i st r ≡ some (r', st')
      → active st ≤ r.accepts
      → r.panicked ≡ false
      → (r'.accepts + active st ≡ r.accepts + active st')
        × (r'.panicked ≡ false)
        × (r'.tunnels ≡ r.tunnels)
  unfolding act accept_done
  act-counted Move.leaves refused h le c = ground arith
  act-counted m st h le c = ground arith

  entered-after :
      (m : Move) (st st' : Stage) (w : ℕ) (r' : Registry)
      → get_elem? r.tunnels i ≡ some st
      → act m i st r ≡ some (r', st')
      → times w r'.order ≡ at_stage entries 0 (get_elem? (set r.tunnels i st') w)
  entered-after m st st' w r' at h =
      act-entered m st w at h ∙ ground (arith, att.entered w, get_elem?-set r.tunnels i w st st' at)

  noted-after :
      (m : Move) (st st' : Stage) (w : ℕ) (r' : Registry)
      → get_elem? r.tunnels i ≡ some st
      → act m i st r ≡ some (r', st')
      → hooks_of w r'.hooks ≡ at_stage (hooked w) [] (get_elem? (set r.tunnels i st') w)
  noted-after m st st' w r' at h =
      act-noted m st w at h ∙ ground (arith, att.noted w, get_elem?-set r.tunnels i w st st' at)

  placed-Attached :
      (m : Move) (st : Stage) (o : Option (Registry × Stage))
      → get_elem? r.tunnels i ≡ some st
      → act m i st r ≡ o
      → Each Attached (placed i o)
  placed-Attached m st none at h = tt
  placed-Attached m st (some (r', st')) at h =
      let (cnt, calm, same) =
        act-counted m st h (omega (arith, att.counted, total-ge active r.tunnels i st at))
          att.calm in
      record {
        ordered = rw same (act-orders m st at h);
        entered = λ w. rw same (entered-after m st st' w r' at h);
        noted = λ w. rw same (noted-after m st st' w r' at h);
        counted = omega (
          arith,
          att.counted,
          ap (λ sts. total active (set sts i st')) same,
          total-set active r.tunnels i st st' at,
        );
        calm = calm;
      }

  moved-Attached :
      (m : Move) (o : Option Stage) → get_elem? r.tunnels i ≡ o → Each Attached (moved r i m o)
  moved-Attached m none at = tt
  moved-Attached m (some st) at = placed-Attached m st (act m i st r) at refl

module _ (r : Registry) (att : Attached r) where
  snoc-entered :
      (w : ℕ) → times w r.order ≡ at_stage entries 0 (get_elem? (r.tunnels ++ accepting ∷ []) w)
  snoc-entered w = ground (
    arith,
    att.entered w,
    get_elem?-snoc r.tunnels w accepting,
    get_elem?-beyond r.tunnels w,
    nat_beq_iff (length r.tunnels) w,
  )

  snoc-noted :
      (w : ℕ)
      → hooks_of w r.hooks ≡ at_stage (hooked w) [] (get_elem? (r.tunnels ++ accepting ∷ []) w)
  snoc-noted w = ground (
    arith,
    att.noted w,
    get_elem?-snoc r.tunnels w accepting,
    get_elem?-beyond r.tunnels w,
    nat_beq_iff (length r.tunnels) w,
  )

  snoc-listed : (w : ℕ) → listed_in (r.tunnels ++ accepting ∷ []) w ≡ listed_in r.tunnels w
  snoc-listed w = ground (
    arith,
    get_elem?-snoc r.tunnels w accepting,
    get_elem?-beyond r.tunnels w,
    nat_beq_iff (length r.tunnels) w,
  )

  arrives-Attached :
      Attached (record r { tunnels = r.tunnels ++ accepting ∷ []; accepts = suc r.accepts })
  arrives-Attached = record {
    ordered =
        att.ordered
        ∙ sym (
            keep-same (listed_in r.tunnels) (listed_in (r.tunnels ++ accepting ∷ [])) r.order
              snoc-listed);
    entered = snoc-entered;
    noted = snoc-noted;
    counted = omega (arith, att.counted, total-append active r.tunnels (accepting ∷ []));
    calm = att.calm;
  }

pub step-Attached : (r : Registry) (e : Step) → Attached r → Each Attached (step r e)
unfolding step
step-Attached r (moves w m) att = moved-Attached r att w m (get_elem? r.tunnels w) refl
step-Attached r arrives att = arrives-Attached r att
step-Attached r shuts att =
    if_cases (Each Attached) r.shut (λ _. tt)
      (λ _. record {
        ordered = att.ordered;
        entered = att.entered;
        noted = att.noted;
        counted = att.counted;
        calm = att.calm;
      })
step-Attached r snapshots att =
    if_cases (Each Attached) (not r.shut || r.snapped) (λ _. tt)
      (λ _. record {
        ordered = att.ordered;
        entered = att.entered;
        noted = att.noted;
        counted = att.counted;
        calm = att.calm;
      })
