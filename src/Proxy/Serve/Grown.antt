-- ===== src/Proxy/Serve/Grown.antt =====
-- What the frames of a tunnel do to the streams of its connection (internal/h2/conn.go): none comes
-- or goes, and a body that has ended stays so.
use reverse_http.Prelude.{
  ℕ, ◌≡◌, refl, sym, subst, true, Option, none, some, [], ◌∷◌, if◌then◌else◌, if_cases, arith, ◌==◌,
  nat_eq, nat_beq_iff, Bool-cases, inl, inr,
}
use reverse_http.Prelude.Table.{Table, lookup, lookup-insert, Unique, insert-Unique}
use reverse_http.H2.Conn.{Conn, put_stream, each_stream}
use reverse_http.H2.Stream.{Stream}

abbrev pub GrownStream : Option Stream → Option Stream → Type 0
GrownStream none none = Unit
GrownStream (some s) (some v) = s.data_done ≡ true → v.data_done ≡ true
GrownStream _ _ = ⊥

pub record Grown (c v : Conn) : Type 0 where
  pub grows : (id : ℕ) → GrownStream (lookup id c.streams) (lookup id v.streams)
  pub keeps : Unique c.streams → Unique v.streams

GrownStream-refl : (o : Option Stream) → GrownStream o o
GrownStream-refl none = tt
GrownStream-refl (some s) = λ h. h

GrownStream-trans : (a b c : Option Stream) → GrownStream a b → GrownStream b c → GrownStream a c
GrownStream-trans none none none h k = tt
GrownStream-trans (some s) (some t) (some u) h k = λ d. k (h d)
GrownStream-trans none none (some u) h k = k
GrownStream-trans none (some t) c h k = absurd h
GrownStream-trans (some s) none c h k = absurd h
GrownStream-trans (some s) (some t) none h k = k

pub Grown-trans : {a b c : Conn} → Grown a b → Grown b c → Grown a c
Grown-trans {a} {b} {c} h k = record {
  grows = λ id.
      GrownStream-trans (lookup id a.streams) (lookup id b.streams) (lookup id c.streams)
        (h.grows id) (k.grows id);
  keeps = λ u. k.keeps (h.keeps u);
}

pub same-Grown : (c v : Conn) → v.streams ≡ c.streams → Grown c v
same-Grown c v e = record {
  grows = λ id.
      subst (λ m. GrownStream (lookup id c.streams) (lookup id m)) (sym e)
        (GrownStream-refl (lookup id c.streams));
  keeps = subst Unique (sym e);
}

put_grows :
    (c : Conn) (id : ℕ) (s v : Stream) (j : ℕ)
    → lookup id c.streams ≡ some s
    → (s.data_done ≡ true → v.data_done ≡ true)
    → GrownStream (lookup j c.streams) (if id == j then some v else lookup j c.streams)
put_grows c id s v j at h =
    if_cases (GrownStream (lookup j c.streams)) (id == j)
      (λ e.
        subst (λ k. GrownStream (lookup k c.streams) (some v)) ((nat_beq_iff id j).0 e)
          (subst (λ o. GrownStream o (some v)) (sym at) h))
      λ _. GrownStream-refl (lookup j c.streams)

pub put-Grown :
    (c : Conn) (id : ℕ) (s v : Stream)
    → lookup id c.streams ≡ some s
    → (s.data_done ≡ true → v.data_done ≡ true)
    → Grown c (put_stream c id v)
put-Grown c id s v at h = record {
  grows = λ j.
      subst (GrownStream (lookup j c.streams)) (sym (lookup-insert id j v c.streams))
        (put_grows c id s v j at h);
  keeps = insert-Unique id v c.streams;
}

each_grows :
    (f : Stream → Stream) (id : ℕ) (m : Table ℕ Stream)
    → ((s : Stream) → s.data_done ≡ true → (f s).data_done ≡ true)
    → GrownStream (lookup id m) (lookup id (each_stream f m))
unfolding lookup
each_grows f id [] h = tt
each_grows f id ((j, s) ∷ m) h = elim (Bool-cases (j == id)) [
  | inl e ↦ rw e (h s)
  | inr e ↦ rw e (each_grows f id m h)
]

lookup-each_none :
    (f : Stream → Stream) (id : ℕ) (m : Table ℕ Stream)
    → lookup id m ≡ none
    → lookup id (each_stream f m) ≡ none
unfolding lookup
lookup-each_none f id [] h = refl
lookup-each_none f id ((j, s) ∷ m) h = elim (Bool-cases (j == id)) [
  | inl e ↦ ground (arith, h)
  | inr e ↦ ground (arith, h, lookup-each_none f id m)
]

each_once : (f : Stream → Stream) (m : Table ℕ Stream) → Unique m → Unique (each_stream f m)
each_once f [] u = tt
each_once f ((j, s) ∷ m) u = (lookup-each_none f j m u.0, each_once f m u.1)

pub each-Grown :
    (f : Stream → Stream) (c v : Conn)
    → ((s : Stream) → s.data_done ≡ true → (f s).data_done ≡ true)
    → v.streams ≡ each_stream f c.streams
    → Grown c v
each-Grown f c v h e = record {
  grows = λ id.
      subst (λ m. GrownStream (lookup id c.streams) (lookup id m)) (sym e)
        (each_grows f id c.streams h);
  keeps = λ u. subst Unique (sym e) (each_once f c.streams u);
}
