-- ===== src/Cdts/Text/Depends.antt =====
-- The bytes that the copies of `cdt::set_string` of plugin-sdk-main/runtime/cdt.h leave as they were.
use meta_ffi_project.Shared.{
  ℕ, zero, suc, ◌+◌, ◌*◌, ◌-◌, ◌≤◌, List, [], ◌∷◌, ◌++◌, length, take, drop, Option, none, some,
  Bool, true, ◌≡◌, ◌≢◌, refl, ap, sym, ◌∙◌, arith,
}
use mathlib.Core.List.{append_assoc, head-eq_of_cons-eq}
use meta_ffi_project.Types.{Kind}
use meta_ffi_project.Cdts.Text.{
  unit_bytes, text_bytes, Text, borrowed, owned, Encoding, width, set_string,
}
use meta_ffi_project.Cdts.Text.Copy.{IsText, set_string-copy, length-text_bytes}

-- New memory in which every byte is the same.
abbrev pub filled : ℕ → ℕ → List ℕ
filled zero b = []
filled (suc n) b = b ∷ filled n b

length-filled : (n b : ℕ) → length (filled n b) ≡ n
length-filled zero b = refl
length-filled (suc n) b = ap suc (length-filled n b)

take-filled : (k n b : ℕ) → k ≤ n → take k (filled n b) ≡ filled k b
take-filled zero n b h = refl
take-filled (suc k) zero b h = absurd (omega arith)
take-filled (suc k) (suc n) b h = ap (◌∷◌ b) (take-filled k n b (omega arith))

drop-filled : (k m b : ℕ) → drop k (filled (k + suc m) b) ≡ b ∷ filled m b
drop-filled zero m b = let e : 0 + suc m ≡ suc m = omega arith in rw e refl
drop-filled (suc k) m b =
    let e : suc k + suc m ≡ suc (k + suc m) = omega arith in rw e (drop-filled k m b)

drop-first : (n : ℕ) (xs ys : List ℕ) → n ≤ length xs → drop n (take n xs ++ ys) ≡ ys
drop-first zero xs ys h = refl
drop-first (suc n) [] ys h = absurd (omega arith)
drop-first (suc n) (x ∷ xs) ys h = drop-first n xs ys (omega arith)

-- The byte of a copy behind the bytes that `memcpy` moved.
behind :
    (n k m total b : ℕ) (xs zeros : List ℕ)
    → k ≡ n + suc m
    → k ≤ total
    → n ≤ length xs
    → drop n (take n xs ++ drop n (take k (filled total b)) ++ zeros) ≡ b ∷ (filled m b ++ zeros)
behind n k m total b xs zeros e fits h =
    rw
      (
        take-filled k total b fits,
        e,
        drop-filled n m b,
        append_assoc (take n xs) (b ∷ filled m b) zeros,
      )
      (drop-first n xs (b ∷ filled m b ++ zeros) h)

abbrev bytes_of : Option (Kind × Bool × Text) → List ℕ
bytes_of (some (k, fr, owned bytes)) = bytes
bytes_of (some (k, fr, borrowed bytes)) = []
bytes_of none = []

-- The memory of `size() + 1` units, every byte of which is `b`.
abbrev pub room : Encoding → List ℕ → ℕ → List ℕ
room e us b = filled (length us * width e + width e) b

copy-behind :
    (e : Encoding) (u : ℕ) (us more : List ℕ) (b : ℕ)
    → IsText (u ∷ us)
    → 2 ≤ width e
    → (rest : List ℕ) × (drop
          (suc (length us))
          (bytes_of (set_string e (u ∷ us ++ 0 ∷ more) true (room e (u ∷ us) b)))
        ≡ b ∷ rest)
copy-behind e u us more b h wide =
    let n = suc (length us) in
    let twice : n * 2 ≤ n * width e = grind arith in
    let m = n * width e - n - 1 in
    let k : n * width e ≡ n + suc m = omega arith in
    (
      filled m b ++ unit_bytes (width e) 0,
      rw
          (set_string-copy e (u ∷ us) more (room e (u ∷ us) b) h
            (length-filled (n * width e + width e) b))
          (behind n (n * width e) m (n * width e + width e) b (text_bytes (width e) (u ∷ us))
            (unit_bytes (width e) 0) k (omega arith)
            (omega (arith, length-text_bytes (width e) (u ∷ us)))),
    )

-- A copy of a UTF-16 or UTF-32 text that is not empty depends on what was in the new memory: it is
-- not the same for memory of zeros and for memory of ones.
pub set_string-depends :
    (e : Encoding) (u : ℕ) (us more : List ℕ)
    → IsText (u ∷ us)
    → 2 ≤ width e
    → set_string e (u ∷ us ++ 0 ∷ more) true (room e (u ∷ us) 0)
      ≢ set_string e (u ∷ us ++ 0 ∷ more) true (room e (u ∷ us) 1)
set_string-depends e u us more h wide same =
    let (r0, e0) = copy-behind e u us more 0 h wide in
    let (r1, e1) = copy-behind e u us more 1 h wide in
    let both : 0 ∷ r0 ≡ 1 ∷ r1 = sym e0 ∙ ap (λ r. drop (suc (length us)) (bytes_of r)) same ∙ e1 in
    let first : Path ℕ 0 1 = head-eq_of_cons-eq both in omega arith
