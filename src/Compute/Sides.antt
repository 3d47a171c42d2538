-- ===== src/Compute/Sides.antt =====
-- internal/infra/memory/instance_repo.go: each of the two maps against the other.
use aurora_old.Base.{
  ℕ, zero, suc, ◌≤◌, eqb, String, ◌==◌, eq_iff, eq_refl, true, none, some, List, [], ◌∷◌, ◌++◌,
  length, get_elem?, get_elem?-set, set, Bool-cases, inl, inr, ◌≡◌, refl, sym, ap, ◌∙◌, arith,
}
use aurora_old.Base.Assoc.{Assoc, lookup, insert, erase, lookup-insert, lookup-erase}
use aurora_old.Compute.Instance.{Instance}

pub get_elem?-last :
    (xs : List Instance) (x : Instance) → get_elem? (xs ++ (x ∷ [])) (length xs) ≡ some x
get_elem?-last [] x = refl
get_elem?-last (y ∷ xs) x = get_elem?-last xs x

get_elem?-grow :
    (xs ys : List Instance) (n : ℕ) (x : Instance)
    → get_elem? xs n ≡ some x
    → get_elem? (xs ++ ys) n ≡ some x
get_elem?-grow [] ys n x h = cc
get_elem?-grow (y ∷ xs) ys zero x h = h
get_elem?-grow (y ∷ xs) ys (suc n) x h = get_elem?-grow xs ys n x h

pub get_elem?-bound :
    (xs : List Instance) (n : ℕ) (x : Instance) → get_elem? xs n ≡ some x → suc n ≤ length xs
get_elem?-bound [] n x h = cc
get_elem?-bound (y ∷ xs) zero x h = omega arith
get_elem?-bound (y ∷ xs) (suc n) x h = omega (arith, get_elem?-bound xs n x h)

pub same_place :
    (heap : List Instance) (i j : Instance) (p q : ℕ)
    → p ≡ q
    → get_elem? heap p ≡ some i
    → get_elem? heap q ≡ some j
    → i ≡ j
same_place heap i j p q e g g' = cc

-- One map against the other: what a key points to has that key, and its other key points to it too.
module _ (key back : Instance → String) where
  abbrev Linked : List Instance → Assoc ℕ → String → ℕ → Type 0
  Linked heap other k p =
      (i : Instance) × (get_elem? heap p ≡ some i) × (key i ≡ k) × (lookup (back i) other ≡ some p)

  abbrev pub Side : List Instance → Assoc ℕ → Assoc ℕ → Type 0
  Side heap m other = (k : String) (p : ℕ) → lookup k m ≡ some p → Linked heap other k p

  Linked-new :
      (heap : List Instance) (other : Assoc ℕ) (i : Instance) (k : String) (p : ℕ)
      → key i ≡ k
      → length heap ≡ p
      → Linked (heap ++ (i ∷ [])) (insert (back i) (length heap) other) k p
  Linked-new heap other i k p u e = (
    i,
    ap (get_elem? (heap ++ (i ∷ []))) (sym e) ∙ get_elem?-last heap i,
    u,
    ground (arith, lookup-insert (back i) (back i) (length heap) other, eq_refl (back i)),
  )

  Linked-old :
      (heap : List Instance) (other : Assoc ℕ) (i : Instance) (k : String) (p : ℕ)
      → lookup (back i) other ≡ none
      → Linked heap other k p
      → Linked (heap ++ (i ∷ [])) (insert (back i) (length heap) other) k p
  Linked-old heap other i k p fresh (j, g, u, l) = (
    j,
    get_elem?-grow heap (i ∷ []) p j g,
    u,
    ground (arith, lookup-insert (back i) (back j) (length heap) other, eq_iff (back i) (back j)),
  )

  pub Side-insert :
      (heap : List Instance) (m other : Assoc ℕ) (i : Instance)
      → Side heap m other
      → lookup (back i) other ≡ none
      → Side
          (heap ++ (i ∷ []))
          (insert (key i) (length heap) m)
          (insert (back i) (length heap) other)
  Side-insert heap m other i h fresh k p e =
      let l = lookup-insert (key i) k (length heap) m in
      elim (Bool-cases (key i == k)) [
        | inl t ↦ Linked-new heap other i k p ((eq_iff (key i) k).0 t) (ground arith)
        | inr t ↦
            Linked-old heap other i k p fresh
              (h k p (ground (arith, lookup-insert (key i) k (length heap) m)))
      ]

  one_object :
      (heap : List Instance) (other : Assoc ℕ) (i j : Instance) (p q : ℕ)
      → back i ≡ back j
      → get_elem? heap p ≡ some i
      → get_elem? heap q ≡ some j
      → lookup (back i) other ≡ some p
      → lookup (back j) other ≡ some q
      → i ≡ j
  one_object heap other i j p q b g g' l l' = cc

  pub Side-erase :
      (heap : List Instance) (m other : Assoc ℕ) (i : Instance) (p : ℕ)
      → Side heap m other
      → get_elem? heap p ≡ some i
      → lookup (back i) other ≡ some p
      → Side heap (erase (key i) m) (erase (back i) other)
  Side-erase heap m other i p h g l k q e =
      let (j, g', u, l') = h k q (ground (arith, lookup-erase (key i) k m)) in
      let x : (back i == back j) ≡ true → i ≡ j =
        λ t. one_object heap other i j p q ((eq_iff (back i) (back j)).0 t) g g' l l' in
      let y : i ≡ j → (key i == k) ≡ true = λ t. (eq_iff (key i) k).1 (ap key t ∙ u) in
      (j, g', u, ground (arith, lookup-erase (back i) (back j) other, lookup-erase (key i) k m))

  pub Side-set :
      (f : Instance → Instance) (heap : List Instance) (m other : Assoc ℕ) (i : Instance) (p : ℕ)
      → ((j : Instance) → key (f j) ≡ key j)
      → ((j : Instance) → back (f j) ≡ back j)
      → get_elem? heap p ≡ some i
      → Side heap m other
      → Side (set heap p (f i)) m other
  Side-set f heap m other i p fk fb g h k q e =
      let (j, g', u, l) = h k q e in
      let s = get_elem?-set heap p q (f i) (get_elem?-bound heap p i g) in
      elim (Bool-cases (eqb p q)) [
        | inl t ↦
            let v : i ≡ j = same_place heap i j p q (ground arith) g g' in
            (f i, rw t at s, fk i ∙ ap key v ∙ u, ap (λ b. lookup b other) (fb i ∙ ap back v) ∙ l)
        | inr t ↦ (j, (rw t at s) ∙ g', u, l)
      ]
