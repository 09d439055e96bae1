-- ===== src/H2/Conn/Decode/Canon.antt =====
-- The cache of canonical header names (internal/h2/conn.go, internal/h2/pools.go) is transparent.
use reverse_http.Prelude.{
  ◌≡◌, refl, ap, sym, ◌∙◌, Bool, true, false, ◌&&◌, Option, none, some, List, [], ◌∷◌,
  if◌then◌else◌, Bytes, ◌==◌, bytes_eq, bytes_beq, bytes_beq_iff,
}
use reverse_http.Prelude.Table.{Table, lookup, insert, lookup-insert}
use reverse_http.H2.Names.{canonical, common_canon_names}
use reverse_http.H2.Writer.{Field}
use reverse_http.H2.Conn.Decode.{
  Scratch, canon_name, append_value, is_pseudo, emit_pseudo, emit_header, emit_all,
}

-- A field without a cache: a pseudo-header goes to its own place, and any other field is added to
-- the header under its canonical name.
pub reference : Field → Scratch → Scratch
reference (name, value) x =
    if is_pseudo name
    then emit_pseudo (name, value) x
    else record x { header = append_value (canonical name) value x.header }

pub reference_all : List Field → Scratch → Scratch
reference_all [] x = x
reference_all (f ∷ fs) x = reference_all fs (reference f x)

-- Every name in the cache stands for its canonical form.
abbrev pub Faithful : Table Bytes Bytes → Type 0
Faithful names = (name canon : Bytes) → lookup name names ≡ some canon → canon ≡ canonical name

insert-Faithful :
    (names : Table Bytes Bytes) (name : Bytes)
    → Faithful names
    → Faithful (insert name (canonical name) names)
insert-Faithful names name f k canon h =
    pick (name == k) (bytes_beq_iff name k).0
      (sym (lookup-insert name k (canonical name) names) ∙ h)
  where
    pick :
        (b : Bool)
        → (b ≡ true → name ≡ k)
        → (if b then some (canonical name) else lookup k names) ≡ some canon
        → canon ≡ canonical k
    pick true e q = let c : canonical name ≡ canon = cc in sym c ∙ ap canonical (e refl)
    pick false e q = f k canon q

canon_name-Faithful :
    (name : Bytes) (names : Table Bytes Bytes) (o : Option Bytes)
    → lookup name names ≡ o
    → Faithful names
    → ((canon_name name names o).1 ≡ canonical name) × Faithful (canon_name name names o).0
canon_name-Faithful name names none e f = (refl, insert-Faithful names name f)
canon_name-Faithful name names (some canon) e f = (f name canon e, f)

emit-Faithful :
    (f : Field) (names : Table Bytes Bytes) (x : Scratch)
    → Faithful names
    → ((emit_header f (names, x)).1 ≡ reference f x) × Faithful (emit_header f (names, x)).0
unfolding emit_header reference
emit-Faithful (name, value) names x f =
    test (is_pseudo name) (canon_name-Faithful name names (lookup name names) refl f)
  where
    test :
        (b : Bool)
        → let o = canon_name name names (lookup name names) in
          (o.1 ≡ canonical name) × Faithful o.0
          → let r : Table Bytes Bytes × Scratch =
              (if b
                then (names, emit_pseudo (name, value) x)
                else (o.0, record x { header = append_value o.1 value x.header })) in
            (r.1 ≡ (
              if b
              then emit_pseudo (name, value) x
              else record x { header = append_value (canonical name) value x.header }))
            × Faithful r.0
    test true k = (refl, f)
    test false k = (ap (λ c. record x { header = append_value c value x.header }) k.0, k.1)

-- However warm the cache is, decoded headers are those that canonicalising each name gives, and the
-- cache stays faithful.
pub emit_all_lem :
    (fs : List Field) (names : Table Bytes Bytes) (x : Scratch)
    → Faithful names
    → ((emit_all fs (names, x)).1 ≡ reference_all fs x) × Faithful (emit_all fs (names, x)).0
unfolding emit_all reference_all
emit_all_lem [] names x f = (refl, f)
emit_all_lem (h ∷ fs) names x f =
    let e = emit-Faithful h names x f in
    let r = emit_all_lem fs (emit_header h (names, x)).0 (emit_header h (names, x)).1 e.1 in
    (r.0 ∙ ap (reference_all fs) e.0, r.1)

-- Every entry has the canonical form of its key, as a test.
abbrev all_canonical : Table Bytes Bytes → Bool
all_canonical [] = true
all_canonical ((j, v) ∷ names) = (v == canonical j) && all_canonical names

and_true : (a b : Bool) → (a && b) ≡ true → (a ≡ true) × (b ≡ true)
and_true true true h = (refl, refl)
and_true true false h = cc
and_true false b h = cc

hit_or_rest :
    (names : Table Bytes Bytes) (j v name canon : Bytes) (b : Bool)
    → (b ≡ true → j ≡ name)
    → v ≡ canonical j
    → (lookup name names ≡ some canon → canon ≡ canonical name)
    → (if b then some v else lookup name names) ≡ some canon
    → canon ≡ canonical name
hit_or_rest names j v name canon true k e rest q =
    let c : v ≡ canon = cc in sym c ∙ e ∙ ap canonical (k refl)
hit_or_rest names j v name canon false k e rest q = rest q

all_canonical-Faithful : (names : Table Bytes Bytes) → all_canonical names ≡ true → Faithful names
unfolding lookup
all_canonical-Faithful [] h name canon e = cc
all_canonical-Faithful ((j, v) ∷ names) h name canon e =
    let both = and_true (v == canonical j) (all_canonical names) h in
    hit_or_rest names j v name canon (j == name) (bytes_beq_iff j name).0
      ((bytes_beq_iff v (canonical j)).0 both.0) (all_canonical-Faithful names both.1 name canon) e

-- The table that seeds the cache of a new connection is faithful.
pub common_canon_names-Faithful : Faithful common_canon_names
unfolding canonical bytes_beq
common_canon_names-Faithful = all_canonical-Faithful common_canon_names refl
