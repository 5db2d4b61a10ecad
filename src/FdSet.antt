-- ===== src/FdSet.antt =====
-- Sets of descriptors: `fd_set` of select(), and the open descriptors of a process.
use edge_embedded_linux.Common.{
  ℕ, ◌≡◌, refl, ◌≢◌, Bool, true, false, ◌||◌, List, [], ◌∷◌, arith, ◌==◌, if◌then◌else◌,
}

-- FD_ISSET
abbrev pub contains : List ℕ → ℕ → Bool
contains [] fd = false
contains (x ∷ l) fd = x == fd || contains l fd

-- FD_CLR
abbrev pub remove : ℕ → List ℕ → List ℕ
remove fd [] = []
remove fd (x ∷ l) = if x == fd then remove fd l else x ∷ remove fd l

pub contains-remove :
    (fd x : ℕ) (l : List ℕ) → contains (remove fd l) x ≡ (if fd == x then false else contains l x)
contains-remove fd x [] = ground arith
contains-remove fd x (y ∷ l) = ground (arith, contains-remove fd x l)

pub contains-remove_ne : (fd x : ℕ) (l : List ℕ) → fd ≢ x → contains (remove fd l) x ≡ contains l x
contains-remove_ne fd x l ne = ground (arith, contains-remove fd x l)

-- What is left after removing something was there before.
pub contains_of_remove :
    (fd x : ℕ) (l : List ℕ) → contains (remove fd l) x ≡ true → contains l x ≡ true
contains_of_remove fd x l h = ground (arith, contains-remove fd x l)

pub contains-head : (x : ℕ) (l : List ℕ) → contains (x ∷ l) x ≡ true
contains-head x l = ground arith

pub contains-tail : (y x : ℕ) (l : List ℕ) → contains l x ≡ true → contains (y ∷ l) x ≡ true
contains-tail y x l h = ground arith

-- A descriptor that was not in the set: adding it and removing it leaves the set.
pub remove-fresh : (x : ℕ) (l : List ℕ) → contains l x ≡ false → remove x l ≡ l
remove-fresh x [] h = refl
remove-fresh x (y ∷ l) h = ground (arith, remove-fresh x l)

pub remove-head : (x : ℕ) (l : List ℕ) → contains l x ≡ false → remove x (x ∷ l) ≡ l
remove-head x l h = ground (arith, remove-fresh x l)

-- Removing the second of two.
pub remove-other : (x y : ℕ) → contains (x ∷ []) y ≡ false → remove x (y ∷ x ∷ []) ≡ y ∷ []
remove-other x y h = ground arith

pub contains_of_one :
    (x y : ℕ) (l : List ℕ) → contains l x ≡ true → contains (x ∷ []) y ≡ true → contains l y ≡ true
contains_of_one x y l h e = ground arith
