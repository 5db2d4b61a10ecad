-- ===== src/Msg/Queue.antt =====
-- msgsnd() puts a message at the end of the queue, msgrcv() takes the first one of a type.
use edge_embedded_linux.Common.{
  ℕ, ◌≡◌, ◌≢◌, ◌⊎◌, inl, inr, List, [], ◌∷◌, ◌++◌, All, ◌==◌, ==_iff, Bool-cases, arith,
}

module _ {M : Type 0} (mtype : M → ℕ) where
  -- msgrcv() of type `t` takes `m` out of the first queue and leaves the second.
  pub data Takes (t : ℕ) : List M → M → List M → Type 0 where
    first : {m : M} {q : List M} → mtype m ≡ t → Takes t (m ∷ q) m q
    behind : {n m : M} {q q' : List M} → mtype n ≢ t → Takes t q m q' → Takes t (n ∷ q) m (n ∷ q')

abbrev pub Has : {M : Type 0} → (M → Type 0) → List M → Type 0
Has P [] = ⊥
Has P (m ∷ q) = P m ⊎ Has P q

module _ {M : Type 0} (P : M → Type 0) where
  pub All-append : (q : List M) (m : M) → All P q → P m → All P (q ++ (m ∷ []))
  All-append [] m h k = (k, tt)
  All-append (x ∷ q) m h k = (h.0, All-append q m h.1 k)

  pub Has-append : (q : List M) (m : M) → Has P q → Has P (q ++ (m ∷ []))
  Has-append [] m h = absurd h
  Has-append (x ∷ q) m (inl h) = inl h
  Has-append (x ∷ q) m (inr h) = inr (Has-append q m h)

  pub Has-last : (q : List M) (m : M) → P m → Has P (q ++ (m ∷ []))
  Has-last [] m h = inl h
  Has-last (x ∷ q) m h = inr (Has-last q m h)

module _ {M : Type 0} (mtype : M → ℕ) (t : ℕ) (P : M → Type 0) where
  pub Takes-All :
      {m : M} {q q' : List M} → Takes mtype t q m q' → All P q → (mtype m ≡ t) × (P m × All P q')
  Takes-All (first e) h = (e, (h.0, h.1))
  Takes-All (behind ne k) h = let r = Takes-All k h.1 in (r.0, (r.1.0, (h.0, r.1.1)))

  -- What is in the queue is what has been taken or is still there.
  pub Takes-Has : {m : M} {q q' : List M} → Takes mtype t q m q' → Has P q → P m ⊎ Has P q'
  Takes-Has (first e) (inl h) = inl h
  Takes-Has (first e) (inr h) = inr h
  Takes-Has (behind ne k) (inl h) = inr (inl h)
  Takes-Has (behind ne k) (inr h) = elim (Takes-Has k h) [ inl r ↦ inl r | inr r ↦ inr (inr r) ]

-- msgrcv() does not block while a message of the type is there.
pub Has-Takes :
    {M : Type 0} (mtype : M → ℕ) (t : ℕ) (q : List M)
    → Has (λ m. mtype m ≡ t) q
    → (m : M) × ((q' : List M) × Takes mtype t q m q')
Has-Takes mtype t [] h = absurd h
Has-Takes mtype t (m ∷ q) (inl e) = (m, (q, first e))
Has-Takes mtype t (m ∷ q) (inr h) = elim (Bool-cases (mtype m == t)) [
  | inl e ↦ (m, (q, first ((==_iff (mtype m) t).0 e)))
  | inr e ↦ let r = Has-Takes mtype t q h in (r.0, (m ∷ r.1.0, behind (λ same. ground arith) r.1.1))
]
