-- ===== src/Proxy/Forward/Stripped.antt =====
-- The forwarded header against the header of the request (internal/proxy/forward.go).
use reverse_http.Prelude.{
  ◌≡◌, refl, ap, sym, ◌∙◌, subst, Bool, true, false, none, some, List, [], ◌∷◌, ◌++◌, append-nil,
  append_assoc, if◌then◌else◌, if_cases, Bytes, ◌==◌, bytes_eq, bytes_beq_iff, All,
}
use reverse_http.Prelude.Table.{lookup, lookup-insert, Unique}
use reverse_http.H2.Names.{canonical}
use reverse_http.H2.Writer.{Header}
use reverse_http.H2.Conn.Decode.{values_of, append_value}
use reverse_http.Proxy.Forward.{is_hop_by_hop, add_all, forward_onto, build_forwarded_header}

-- The values of a name; a name that is missing has none.
abbrev pub values : Bytes → Header → List Bytes
values name h = values_of (lookup name h)

values_append :
    (k j v : Bytes) (h : Header)
    → values j (append_value k v h) ≡ (if k == j then values j h ++ v ∷ [] else values j h)
unfolding append_value
values_append k j v h =
    ap values_of (lookup-insert k j (values k h ++ v ∷ []) h) ∙ pick (k == j) (bytes_beq_iff k j).0
  where
    pick :
        (b : Bool)
        → (b ≡ true → k ≡ j)
        → values_of (if b then some (values k h ++ v ∷ []) else lookup j h)
          ≡ (if b then values j h ++ v ∷ [] else values j h)
    pick true e = ap (λ i. values i h ++ v ∷ []) (e refl)
    pick false e = refl

append_under :
    (b : Bool) (xs ys : List Bytes) (v : Bytes) (vv : List Bytes)
    → xs ≡ (if b then ys ++ v ∷ [] else ys)
    → (if b then xs ++ vv else xs) ≡ (if b then ys ++ v ∷ vv else ys)
append_under true xs ys v vv e = ap (λ l. l ++ vv) e ∙ append_assoc ys (v ∷ []) vv
append_under false xs ys v vv e = e

values-add_all :
    (k j : Bytes) (vv : List Bytes) (h : Header)
    → canonical k ≡ k
    → values j (add_all k vv h) ≡ (if k == j then values j h ++ vv else values j h)
unfolding add_all
values-add_all k j [] h c =
    if_cases (λ l. values j h ≡ l) (k == j) (λ _. sym (append-nil (values j h))) λ _. refl
values-add_all k j (v ∷ vv) h c =
    values-add_all k j vv (append_value (canonical k) v h) c
    ∙ append_under (k == j) _ (values j h) v vv (
        subst
          (λ n.
            values j (append_value n v h) ≡ (if k == j then values j h ++ v ∷ [] else values j h))
          (sym c) (values_append k j v h))

-- What is to be forwarded under a name.
abbrev allowed : Bytes → List Bytes → List Bytes
allowed name vv = if is_hop_by_hop name then [] else vv

allowed_nil : (name : Bytes) → allowed name [] ≡ []
allowed_nil name = if_cases (λ (l : List Bytes). l ≡ []) (is_hop_by_hop name) (λ _. refl) λ _. refl

entry_values :
    (k j : Bytes) (vv : List Bytes) (h : Header)
    → canonical k ≡ k
    → values j (if is_hop_by_hop k then h else add_all k vv h)
      ≡ (if k == j then values j h ++ allowed k vv else values j h)
entry_values k j vv h c = by_hop (is_hop_by_hop k)
  where
    by_hop :
        (b : Bool)
        → values j (if b then h else add_all k vv h)
          ≡ (if k == j then values j h ++ (if b then [] else vv) else values j h)
    by_hop true =
        if_cases (λ l. values j h ≡ l) (k == j) (λ _. sym (append-nil (values j h))) λ _. refl
    by_hop false = values-add_all k j vv h c

forwarded_entry :
    (k j : Bytes) (vv : List Bytes) (req h : Header)
    → canonical k ≡ k
    → lookup k req ≡ none
    → values j (if is_hop_by_hop k then h else add_all k vv h) ++ allowed j (values j req)
      ≡ values j h ++ allowed j (values_of (if k == j then some vv else lookup j req))
forwarded_entry k j vv req h c missing =
    by_key (k == j) (bytes_beq_iff k j).0 _ (entry_values k j vv h c)
  where
    by_key :
        (b : Bool)
        → (b ≡ true → k ≡ j)
        → (l : List Bytes) → l ≡ (if b then values j h ++ allowed k vv else values j h)
        → l ++ allowed j (values j req)
          ≡ values j h ++ allowed j (values_of (if b then some vv else lookup j req))
    by_key true e l q =
        ap (λ r. l ++ allowed j (values_of r)) (ap (λ n. lookup n req) (sym (e refl)) ∙ missing)
        ∙ ap (λ r. l ++ r) (allowed_nil j)
        ∙ append-nil l
        ∙ q
        ∙ ap (λ n. values j h ++ allowed n vv) (e refl)
    by_key false e l q = ap (λ r. r ++ allowed j (values j req)) q

forward_onto_lem :
    (req h : Header) (j : Bytes)
    → Unique req
    → All (λ (e : Bytes × List Bytes). canonical e.0 ≡ e.0) req
    → values j (forward_onto req h) ≡ values j h ++ allowed j (values j req)
unfolding forward_onto lookup
forward_onto_lem [] h j u c =
    if_cases (λ l. values j h ≡ values j h ++ l) (is_hop_by_hop j)
      (λ _. sym (append-nil (values j h))) λ _. sym (append-nil (values j h))
forward_onto_lem ((k, vv) ∷ req) h j u c =
    forward_onto_lem req _ j u.1 c.1 ∙ forwarded_entry k j vv req h c.0 u.0

-- Under every name that is not hop-by-hop, a worker sees the values of the public request, all of
-- them and in order; under a hop-by-hop name it sees none. The names of the request are distinct
-- and canonical, as net/http keeps them.
pub forwarded_values :
    (req : Header) (name : Bytes)
    → Unique req
    → All (λ (e : Bytes × List Bytes). canonical e.0 ≡ e.0) req
    → values name (build_forwarded_header req)
      ≡ (if is_hop_by_hop name then [] else values name req)
unfolding build_forwarded_header lookup
forwarded_values req name u c = forward_onto_lem req [] name u c
