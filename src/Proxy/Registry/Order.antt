-- ===== src/Proxy/Registry/Order.antt =====
-- The attached workers and the hooks of a proxy (internal/proxy/proxy.go).
use reverse_http.Prelude.{
  ℕ, ◌+◌, ◌≤◌, ◌≡◌, refl, ap, sym, ◌∙◌, Bool, true, false, Option, none, some, List, [], ◌∷◌, ◌++◌,
  get_elem?, set, total, total-append, get_elem?-set, arith, if◌then◌else◌, ◌==◌, nat_eq,
  nat_beq_iff,
}
use reverse_http.Proxy.Registry.{
  Stage, accepting, refused, admitted, appended, serving, ended, rejected, Registry, without,
  is_present, keep,
}

abbrev pub stage_listed : Stage → Bool
stage_listed appended = true
stage_listed serving = true
stage_listed ended = true
stage_listed _ = false

abbrev pub at_stage {ℓ} : {A : Type ℓ} → (Stage → A) → A → Option Stage → A
at_stage f other none = other
at_stage f other (some st) = f st

-- Whether the tunnel `w` is between the append of its `attach` and the removal of its `detach`.
abbrev pub listed_in : List Stage → ℕ → Bool
listed_in sts w = at_stage stage_listed false (get_elem? sts w)

-- Whether the worker `w` was ever appended.
abbrev pub entries : Stage → ℕ
entries accepting = 0
entries refused = 0
entries admitted = 0
entries rejected = 0
entries _ = 1

-- How often `w` is in a list.
abbrev pub times : ℕ → List ℕ → ℕ
times w = total (λ x. if x == w then 1 else 0)

-- A test that changes at a worker that is not there changes nothing.
pub keep-absent :
    (p q : ℕ → Bool) (w : ℕ) (xs : List ℕ)
    → ((x : ℕ) → (x == w) ≡ false → q x ≡ p x)
    → times w xs ≡ 0
    → keep q xs ≡ keep p xs
unfolding keep
keep-absent p q w [] h n = refl
keep-absent p q w (x ∷ xs) h n = ground (arith, h x, keep-absent p q w xs h)

-- Taking a worker off a list of kept ones is keeping all but it.
without-keep :
    (p q : ℕ → Bool) (w : ℕ) (xs : List ℕ)
    → p w ≡ true
    → q w ≡ false
    → ((x : ℕ) → (x == w) ≡ false → q x ≡ p x)
    → times w xs ≤ 1
    → without w (keep p xs) ≡ keep q xs
unfolding keep without
without-keep p q w [] pw qw h n = refl
without-keep p q w (x ∷ xs) pw qw h n =
    ground (arith, nat_beq_iff x w, h x, keep-absent p q w xs h, without-keep p q w xs pw qw h)

pub present-keep :
    (p : ℕ → Bool) (w : ℕ) (xs : List ℕ)
    → p w ≡ true
    → 1 ≤ times w xs
    → is_present w (keep p xs) ≡ true
unfolding keep is_present
present-keep p w [] pw n = absurd (omega arith)
present-keep p w (x ∷ xs) pw n = ground (arith, nat_beq_iff x w, present-keep p w xs pw)

keep-append : (p : ℕ → Bool) (xs ys : List ℕ) → keep p (xs ++ ys) ≡ keep p xs ++ keep p ys
unfolding keep
keep-append p [] ys = refl
keep-append p (x ∷ xs) ys = ground (arith, keep-append p xs ys)

keep-one : (p : ℕ → Bool) (x : ℕ) → p x ≡ true → keep p (x ∷ []) ≡ x ∷ []
unfolding keep
keep-one p x h = rw h

pub keep-same : (p q : ℕ → Bool) (xs : List ℕ) → ((x : ℕ) → q x ≡ p x) → keep q xs ≡ keep p xs
unfolding keep
keep-same p q [] h = refl
keep-same p q (x ∷ xs) h = ground (arith, h x, keep-same p q xs h)

pub times-snoc : (w x : ℕ) (xs : List ℕ) → times w (xs ++ x ∷ []) ≡ times w xs + times w (x ∷ [])
times-snoc w x xs = total-append (λ y. if y == w then 1 else 0) xs (x ∷ [])

-- The workers are those that are listed now, in the order in which they were appended.
abbrev pub Ordered : List Stage → Registry → Type 0
Ordered sts r = r.workers ≡ keep (listed_in sts) r.order

module _ (r : Registry) (i : ℕ) (st : Stage) (at : get_elem? r.tunnels i ≡ some st) where
  listed-elsewhere :
      (st' : Stage) (x : ℕ)
      → (x == i) ≡ false
      → listed_in (set r.tunnels i st') x ≡ listed_in r.tunnels x
  listed-elsewhere st' x h = ground (arith, get_elem?-set r.tunnels i x st st' at)

  listed-here : (st' : Stage) → listed_in (set r.tunnels i st') i ≡ stage_listed st'
  listed-here st' = ground (arith, get_elem?-set r.tunnels i i st st' at)

  listed-same :
      (st' : Stage)
      → stage_listed st' ≡ stage_listed st
      → (x : ℕ) → listed_in (set r.tunnels i st') x ≡ listed_in r.tunnels x
  listed-same st' e x = ground (arith, at, nat_beq_iff i x, get_elem?-set r.tunnels i x st st' at)

  pub kept-same :
      (st' : Stage)
      → stage_listed st' ≡ stage_listed st
      → Ordered r.tunnels r
      → Ordered (set r.tunnels i st') r
  kept-same st' e o =
      o
      ∙ sym (
          keep-same (listed_in r.tunnels) (listed_in (set r.tunnels i st')) r.order
            (listed-same st' e))

  pub kept-appended :
      Ordered r.tunnels r
      → times i r.order ≡ 0
      → r.workers ++ i ∷ [] ≡ keep (listed_in (set r.tunnels i appended)) (r.order ++ i ∷ [])
  kept-appended o n =
      let q = listed_in (set r.tunnels i appended) in
      ap (λ ws. ws ++ i ∷ [])
        (o ∙ sym (keep-absent (listed_in r.tunnels) q i r.order (listed-elsewhere appended) n))
      ∙ ap (λ ws. keep q r.order ++ ws) (sym (keep-one q i (listed-here appended)))
      ∙ sym (keep-append q r.order (i ∷ []))

  pub kept-removed :
      (st' : Stage)
      → stage_listed st ≡ true
      → stage_listed st' ≡ false
      → Ordered r.tunnels r
      → times i r.order ≡ 1
      → without i r.workers ≡ keep (listed_in (set r.tunnels i st')) r.order
  kept-removed st' y n o t =
      ap (without i) o
      ∙ without-keep (listed_in r.tunnels) (listed_in (set r.tunnels i st')) i r.order
          (ground (arith, at)) (listed-here st' ∙ n) (listed-elsewhere st') (omega arith)
