-- ===== src/Cdts/Apart.antt =====
-- Releases that do not meet, in plugin-sdk-main/runtime/cdt.h: in any order, and among the pointers alone.
use mathlib.Core.Logic.{∥∥₁_elim}
use mathlib.Core.Bool.{Bool-set}
use mathlib.Core.List.{Perm}
use mathlib.Core.List.Permᴰ.{Permᴰ}
use meta_ffi_project.Shared.{
  ℕ, Bool, true, false, not, ◌&&◌, List, [], ◌∷◌, ◌==◌, ◌≡◌, refl, sym, ap, ◌∙◌, arith,
}
use meta_ffi_project.Cdts.Memory.{
  Release, string, callable, handle_emptied, elements, array, deletes, touches, apart, all_apart,
  is_clear,
}
use meta_ffi_project.Cdts.Once.{released}

same_test : (v w : ℕ) → not (v == w) ≡ not (w == v)
same_test v w = ground arith

apart_comm : (x y : Release) → apart x y ≡ apart y x
unfolding apart deletes touches
apart_comm (string w) (string v) = same_test v w
apart_comm (string w) (callable v) = same_test v w
apart_comm (string w) (handle_emptied v) = same_test v w
apart_comm (string w) (elements n) = refl
apart_comm (string w) array = refl
apart_comm (callable w) (string v) = same_test v w
apart_comm (callable w) (callable v) = same_test v w
apart_comm (callable w) (handle_emptied v) = same_test v w
apart_comm (callable w) (elements n) = refl
apart_comm (callable w) array = refl
apart_comm (handle_emptied w) (string v) = same_test v w
apart_comm (handle_emptied w) (callable v) = same_test v w
apart_comm (handle_emptied w) (handle_emptied v) = refl
apart_comm (handle_emptied w) (elements n) = refl
apart_comm (handle_emptied w) array = refl
apart_comm (elements n) (string v) = refl
apart_comm (elements n) (callable v) = refl
apart_comm (elements n) (handle_emptied v) = refl
apart_comm (elements n) (elements m) = refl
apart_comm (elements n) array = refl
apart_comm array (string v) = refl
apart_comm array (callable v) = refl
apart_comm array (handle_emptied v) = refl
apart_comm array (elements n) = refl
apart_comm array array = refl

swap_tests : (a b c : Bool) → (a && (b && c)) ≡ (b && (a && c))
swap_tests true b c = refl
swap_tests false true c = refl
swap_tests false false c = refl

swap_clear : (x y a b c : Bool) → x ≡ y → ((x && a) && (b && c)) ≡ ((y && b) && (a && c))
swap_clear true y a b c e = rw (sym e) (swap_tests a b c)
swap_clear false y a b c e = rw (sym e) refl

all_apart-order : (x : Release) {p q : List Release} → Permᴰ p q → all_apart x p ≡ all_apart x q
unfolding all_apart
all_apart-order x Permᴰ.nil = refl
all_apart-order x (Permᴰ.cons e d) = rw (e, all_apart-order x d) refl
all_apart-order x (Permᴰ.swap {l = l} e e') =
    rw (e, e') (swap_tests (apart x _) (apart x _) (all_apart x l))
all_apart-order x (Permᴰ.trans d d') = all_apart-order x d ∙ all_apart-order x d'

swapped_clear : (x y : Release) (l : List Release) → is_clear (x ∷ y ∷ l) ≡ is_clear (y ∷ x ∷ l)
unfolding is_clear all_apart
swapped_clear x y l =
    swap_clear (apart x y) (apart y x) (all_apart x l) (all_apart y l) (is_clear l) (apart_comm x y)

is_clear-order : {p q : List Release} → Permᴰ p q → is_clear p ≡ is_clear q
unfolding is_clear all_apart
is_clear-order Permᴰ.nil = refl
is_clear-order (Permᴰ.cons {b = b} e d) = rw (e, all_apart-order b d, is_clear-order d) refl
is_clear-order (Permᴰ.swap {a = a} {a' = a'} {l = l} e e') =
    ap (λ x. is_clear (a ∷ x ∷ l)) e' ∙ swapped_clear a a' l ∙ ap (λ x. is_clear (a' ∷ x ∷ l)) e
is_clear-order (Permᴰ.trans d d') = is_clear-order d ∙ is_clear-order d'

pub is_clear-Perm : (p q : List Release) → Perm p q → is_clear p ≡ is_clear q
is_clear-Perm p q same = ∥∥₁_elim same (Bool-set (is_clear p) (is_clear q)) (λ d. is_clear-order d)

all_apart-elements : (n : ℕ) (r : List Release) → all_apart (elements n) r ≡ true
unfolding all_apart apart
all_apart-elements n [] = refl
all_apart-elements n (y ∷ r) = all_apart-elements n r

all_apart-array : (r : List Release) → all_apart array r ≡ true
unfolding all_apart apart
all_apart-array [] = refl
all_apart-array (y ∷ r) = all_apart-array r

apart-array : (x : Release) → apart x array ≡ true
apart-array x = apart_comm x array ∙ unfold apart in refl

apart-elements : (x : Release) (n : ℕ) → apart x (elements n) ≡ true
apart-elements x n = apart_comm x (elements n) ∙ unfold apart in refl

all_apart-released : (x : Release) (r : List Release) → all_apart x (released r) ≡ all_apart x r
unfolding released all_apart
all_apart-released x [] = refl
all_apart-released x (string w ∷ r) = ap (λ b. apart x (string w) && b) (all_apart-released x r)
all_apart-released x (callable w ∷ r) = ap (λ b. apart x (callable w) && b) (all_apart-released x r)
all_apart-released x (handle_emptied w ∷ r) =
    ap (λ b. apart x (handle_emptied w) && b) (all_apart-released x r)
all_apart-released x (elements n ∷ r) = rw (apart-elements x n) (all_apart-released x r)
all_apart-released x (array ∷ r) = rw (apart-array x) (all_apart-released x r)

-- The blocks of arrays meet nothing.
pub is_clear-released : (r : List Release) → is_clear (released r) ≡ is_clear r
unfolding released is_clear
is_clear-released [] = refl
is_clear-released (string w ∷ r) = rw (all_apart-released (string w) r, is_clear-released r) refl
is_clear-released (callable w ∷ r) =
    rw (all_apart-released (callable w) r, is_clear-released r) refl
is_clear-released (handle_emptied w ∷ r) =
    rw (all_apart-released (handle_emptied w) r, is_clear-released r) refl
is_clear-released (elements n ∷ r) = rw (all_apart-elements n r) (is_clear-released r)
is_clear-released (array ∷ r) = rw (all_apart-array r) (is_clear-released r)
