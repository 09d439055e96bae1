-- ===== src/H2/Conn/Drain.antt =====
-- Graceful drain of a connection with the goroutines interleaved (internal/h2/conn.go): RemoveStream
-- counts the registry under `streamsMu` and reads `draining` after it has released it, and BeginDrain
-- sets `draining` before it counts.
use reverse_http.Prelude.{
  ℕ, suc, ◌+◌, ◌-◌, ◌<◌, ◌≡◌, refl, ap, subst, ◌⊎◌, inl, inr, true, ◌&&◌, Option, none, some, List,
  [], ◌∷◌, length, if◌then◌else◌, if_cases, arith, ◌==◌, nat_eq, Bool-cases, nat_beq_iff,
}
use reverse_http.Prelude.Table.{delete, insert_nonempty}
use reverse_http.H2.Stream.{Stream}
use reverse_http.H2.Conn.{
  Conn, new_conn, add_to_registry, remove_stream, begin_drain, finish_drain, drain_complete,
}

-- A connection with the calls under way: the counts that removers have taken and not looked at yet,
-- the callers of BeginDrain before their count, and the callers that go on to finishDrain.
pub record Racing : Type 0 where
  pub conn : Conn
  pub counted : List ℕ
  pub counting : ℕ
  pub finishing : ℕ

abbrev pub alone : Conn → Racing
alone c = record { conn = c; counted = []; counting = 0; finishing = 0 }

-- The atomic steps. `removes` and `begins` start a call; `checks` and `counts` are its second step,
-- and `finishes` the third. `checks n` is that
-- of a remover whose count is `n`, and does nothing if there is none.
pub data Step : Type 0 where
  adds : Stream → Step
  removes : ℕ → Step
  checks : ℕ → Step
  begins counts finishes : Step

abbrev kept {ℓ} : {A : Type ℓ} → A → Option (List A) → Option (List A)
kept x none = none
kept x (some xs) = some (x ∷ xs)

abbrev taken : ℕ → List ℕ → Option (List ℕ)
taken n [] = none
taken n (m ∷ ms) = if m == n then some ms else kept m (taken n ms)

abbrev checked : Racing → ℕ → Option (List ℕ) → Racing
checked r n none = r
checked r n (some ns) =
    if (n == 0) && r.conn.draining
    then record r { counted = ns; finishing = suc r.finishing }
    else record r { counted = ns }

unfoldable pub step : Racing → Step → Racing
unfolding finish_drain
step r (adds s) = record r { conn = add_to_registry r.conn s }
step r (removes id) =
    let c = record r.conn { streams = delete id r.conn.streams } in
    record r { conn = c; counted = length c.streams ∷ r.counted }
step r (checks n) = checked r n (taken n r.counted)
step r begins = record r {
  conn = record r.conn { draining = true; drain_started = true };
  counting = suc r.counting;
}
step r counts =
    if r.counting == 0
    then r
    else if length r.conn.streams == 0
    then record r { counting = r.counting - 1; finishing = suc r.finishing }
    else record r { counting = r.counting - 1 }
step r finishes =
    if r.finishing == 0
    then r
    else record r { conn = finish_drain r.conn; finishing = r.finishing - 1 }

unfoldable pub run : Racing → List Step → Racing
run r [] = r
run r (x ∷ xs) = run (step r x) xs

-- The calls, undisturbed, are these steps.
begin_drain_steps :
    (c : Conn) → run (alone c) (begins ∷ counts ∷ finishes ∷ []) ≡ alone (begin_drain c)
unfolding run step begin_drain finish_drain
begin_drain_steps c = elim (Bool-cases (length c.streams == 0)) [
  | inl h ↦ rw h refl
  | inr h ↦ rw h refl
]

remove_stream_steps :
    (c : Conn) (id : ℕ)
    → run (alone c) (removes id ∷ checks (length (delete id c.streams)) ∷ finishes ∷ [])
      ≡ alone (remove_stream c id)
unfolding run step remove_stream finish_drain
remove_stream_steps c id =
    rw ((nat_beq_iff (length (delete id c.streams)) _).1 refl)
      (elim (Bool-cases ((length (delete id c.streams) == 0) && c.draining)) [
        | inl h ↦ rw h refl
        | inr h ↦ rw h refl
      ])

abbrev zeros : List ℕ → ℕ
zeros [] = 0
zeros (n ∷ ns) = if n == 0 then suc (zeros ns) else zeros ns

zeros-kept :
    (m n : ℕ) (ms ns : List ℕ) (o : Option (List ℕ))
    → kept m o ≡ some ns
    → ((ls : List ℕ) → o ≡ some ls → zeros ms ≡ (if n == 0 then suc (zeros ls) else zeros ls))
    → zeros (m ∷ ms) ≡ (if n == 0 then suc (zeros ns) else zeros ns)
zeros-kept m n ms ns none h k = cc
zeros-kept m n ms ns (some ls) h k =
    let e : (m ∷ ls) ≡ ns = cc in
    subst (λ l. zeros (m ∷ ms) ≡ (if n == 0 then suc (zeros l) else zeros l)) e
      (ground (arith, k ls refl))

zeros-taken :
    (n : ℕ) (ms ns : List ℕ)
    → taken n ms ≡ some ns
    → zeros ms ≡ (if n == 0 then suc (zeros ns) else zeros ns)
zeros-taken n [] ns h = cc
zeros-taken n (m ∷ ms) ns h = elim (Bool-cases (m == n)) [
  | inl e ↦ ground (arith, h, nat_beq_iff m n)
  | inr f ↦
      zeros-kept m n ms ns (taken n ms)
        (subst (λ b. (if b then some ms else kept m (taken n ms)) ≡ some ns) f h) (zeros-taken n ms)
]

-- A drain that has nothing left to wait for is completed, or some call under way completes it.
pub record Sane (r : Racing) : Type 0 where
  pub begun : r.conn.drain_done ≡ true → r.conn.draining ≡ true
  pub finishing_begun : 0 < r.finishing → r.conn.draining ≡ true
  pub counting_begun : 0 < r.counting → r.conn.draining ≡ true
  pub watched :
      r.conn.draining ≡ true
      → length r.conn.streams ≡ 0
      → (r.conn.drain_done ≡ true) ⊎ (0 < r.finishing + (r.counting + zeros r.counted))

checked-Sane :
    (r : Racing) (n : ℕ) (o : Option (List ℕ))
    → taken n r.counted ≡ o
    → Sane r
    → Sane (checked r n o)
checked-Sane r n none e f = f
checked-Sane r n (some ns) e f =
    let z = zeros-taken n r.counted ns e in
    if_cases Sane ((n == 0) && r.conn.draining)
      (λ t. record {
        begun = f.begun;
        finishing_begun = λ _. ground arith;
        counting_begun = f.counting_begun;
        watched = λ d h. inr (omega arith);
      })
      λ t. record {
        begun = f.begun;
        finishing_begun = f.finishing_begun;
        counting_begun = f.counting_begun;
        watched = λ d h. ground (arith, f.watched d h, z);
      }

counts-Sane : (r : Racing) → Sane r → Sane (step r counts)
unfolding step
counts-Sane r f =
    if_cases Sane (r.counting == 0) (λ _. f)
      λ t.
        if_cases Sane (length r.conn.streams == 0)
          (λ e. record {
            begun = f.begun;
            finishing_begun = λ _. f.counting_begun (ground arith);
            counting_begun = λ h. f.counting_begun (omega arith);
            watched = λ d h. inr (omega arith);
          })
          λ e. record {
            begun = f.begun;
            finishing_begun = f.finishing_begun;
            counting_begun = λ h. f.counting_begun (omega arith);
            watched = λ d h. absurd (ground arith);
          }

step-Sane : (r : Racing) (x : Step) → Sane r → Sane (step r x)
unfolding step add_to_registry finish_drain
step-Sane r (adds s) f = record {
  begun = f.begun;
  finishing_begun = f.finishing_begun;
  counting_begun = f.counting_begun;
  watched = λ d h. absurd (omega (arith, insert_nonempty s.id s r.conn.streams));
}
step-Sane r (removes id) f = record {
  begun = f.begun;
  finishing_begun = f.finishing_begun;
  counting_begun = f.counting_begun;
  watched = λ d h. inr (ground arith);
}
step-Sane r (checks n) f = checked-Sane r n (taken n r.counted) refl f
step-Sane r begins f = record {
  begun = λ _. refl;
  finishing_begun = λ _. refl;
  counting_begun = λ _. refl;
  watched = λ d h. inr (omega arith);
}
step-Sane r counts f = counts-Sane r f
step-Sane r finishes f =
    if_cases Sane (r.finishing == 0) (λ _. f)
      λ t. record {
        begun = λ _. f.finishing_begun (ground arith);
        finishing_begun = λ h. f.finishing_begun (omega arith);
        counting_begun = f.counting_begun;
        watched = λ d h. inl refl;
      }

run-Sane : (r : Racing) (xs : List Step) → Sane r → Sane (run r xs)
unfolding run
run-Sane r [] f = f
run-Sane r (x ∷ xs) f = run-Sane (step r x) xs (step-Sane r x f)

new-Sane : Sane (alone new_conn)
new-Sane = record {
  begun = λ h. cc;
  finishing_begun = λ h. absurd (omega arith);
  counting_begun = λ h. absurd (omega arith);
  watched = λ h. cc;
}

-- However the removals of streams, the arrivals of streams and the calls of BeginDrain interleave
-- on a new connection: once no call is under way, a connection that drains and has no stream left
-- is complete, so its frame loop ends. No completion is lost.
pub drain_completes :
    (xs : List Step) (r : Racing)
    → run (alone new_conn) xs ≡ r
    → r.counted ≡ []
    → r.counting ≡ 0
    → r.finishing ≡ 0
    → r.conn.draining ≡ true
    → length r.conn.streams ≡ 0
    → drain_complete r.conn ≡ true
unfolding drain_complete
drain_completes xs r e q c z d h =
    let f : Sane r = subst Sane e (run-Sane (alone new_conn) xs new-Sane) in
    elim (f.watched d h) [ inl done ↦ done | inr p ↦ absurd (omega (arith, p, c, z, ap zeros q)) ]
