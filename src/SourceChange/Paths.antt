-- ===== src/SourceChange/Paths.antt =====
-- File paths and file contents: lists of code points and of bytes, compared as Python compares them.
use general_ai_core.Prelude.{
  ◌↔◌, nat_beq, ℕ, ◌≡◌, refl, Bool, true, false, ◌&&◌, ◌||◌, List, [], ◌∷◌, arith, nat_eq,
  string_eq, pair_eq, subst, Eq, ltb,
}
use general_ai_core.Prelude.Sorted.{Order}

abbrev pub FilePath : Type 0
FilePath = List ℕ

abbrev pub Bytes : Type 0
Bytes = List ℕ

abbrev pub list_beq : List ℕ → List ℕ → Bool
list_beq [] [] = true
list_beq [] (y ∷ ys) = false
list_beq (x ∷ xs) [] = false
list_beq (x ∷ xs) (y ∷ ys) = nat_beq x y && list_beq xs ys

eq_of_list_beq : (xs ys : List ℕ) → list_beq xs ys ≡ true → xs ≡ ys
eq_of_list_beq [] [] h = refl
eq_of_list_beq [] (y ∷ ys) h = cc
eq_of_list_beq (x ∷ xs) [] h = cc
eq_of_list_beq (x ∷ xs) (y ∷ ys) h = ground (arith, eq_of_list_beq xs ys)

list_beq_self : (xs : List ℕ) → list_beq xs xs ≡ true
list_beq_self [] = refl
list_beq_self (x ∷ xs) = ground (arith, list_beq_self xs)

pub list_beq_iff : (xs ys : List ℕ) → (list_beq xs ys ≡ true) ↔ (xs ≡ ys)
list_beq_iff xs ys =
    (eq_of_list_beq xs ys, λ h. subst (λ zs. list_beq xs zs ≡ true) h (list_beq_self xs))

instance abbrev pub list_eq : Eq (List ℕ)
list_eq = record { beq = list_beq; beq_iff = list_beq_iff }

-- Python's `<` on strings: by the first code point that differs.
abbrev pub path_less : List ℕ → List ℕ → Bool
path_less [] [] = false
path_less [] (y ∷ ys) = true
path_less (x ∷ xs) [] = false
path_less (x ∷ xs) (y ∷ ys) = ltb x y || (nat_beq x y && path_less xs ys)

pub path_irrefl : (a : List ℕ) → path_less a a ≡ false
path_irrefl [] = refl
path_irrefl (x ∷ a) = ground (arith, path_irrefl a)

pub path_trans :
    (a b c : List ℕ) → path_less a b ≡ true → path_less b c ≡ true → path_less a c ≡ true
path_trans [] [] c h k = cc
path_trans [] (y ∷ b) [] h k = cc
path_trans [] (y ∷ b) (z ∷ c) h k = refl
path_trans (x ∷ a) [] c h k = cc
path_trans (x ∷ a) (y ∷ b) [] h k = cc
path_trans (x ∷ a) (y ∷ b) (z ∷ c) h k = ground (arith, path_trans a b c)

pub path_total : (a b : List ℕ) → path_less a b ≡ false → path_less b a ≡ false → a ≡ b
path_total [] [] h k = refl
path_total [] (y ∷ b) h k = cc
path_total (x ∷ a) [] h k = cc
path_total (x ∷ a) (y ∷ b) h k = ground (arith, path_total a b)

instance abbrev pub path_order : Order (List ℕ)
path_order = record {
  less = path_less;
  irrefl = path_irrefl;
  trans = path_trans;
  total = path_total;
}
