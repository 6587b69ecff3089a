-- ===== src/Cdts/Text/Copy.antt =====
-- What the copies of `cdt::set_string` of plugin-sdk-main/runtime/cdt.h hold.
use meta_ffi_project.Shared.{
  ℕ, zero, suc, ◌+◌, ◌*◌, ◌/◌, ◌%◌, ◌≤◌, ◌<◌, List, [], ◌∷◌, ◌++◌, length, length-append, take,
  drop, some, true, false, ◌≡◌, ◌≢◌, refl, ap, ◌∙◌, ◌==◌, arith,
}
use mathlib.Core.List.{append-nil}
use meta_ffi_project.Types.{Kind}
use meta_ffi_project.Cdts.Text.{
  unit_bytes, text_bytes, string_view, memcpy, write_at, on_rest, copy, owned, Encoding, width,
  kind, set_string,
}

pub length-unit_bytes : (w u : ℕ) → length (unit_bytes w u) ≡ w
length-unit_bytes zero u = refl
length-unit_bytes (suc w) u = ap suc (length-unit_bytes w (u / 256))

pub length-text_bytes : (w : ℕ) (us : List ℕ) → length (text_bytes w us) ≡ length us * w
length-text_bytes w [] = omega arith
length-text_bytes w (u ∷ us) = ground (
  arith,
  length-append (unit_bytes w u) (text_bytes w us),
  length-unit_bytes w u,
  length-text_bytes w us,
)

memcpy_lem :
    (to from : List ℕ) (n : ℕ)
    → n ≤ length to
    → n ≤ length from
    → memcpy to from n ≡ some (take n from ++ drop n to)
unfolding memcpy
memcpy_lem to from zero h k = refl
memcpy_lem [] from (suc n) h k = absurd (omega arith)
memcpy_lem (d ∷ to) [] (suc n) h k = absurd (omega arith)
memcpy_lem (d ∷ to) (b ∷ from) (suc n) h k =
    ap (on_rest b) (memcpy_lem to from n (omega arith) (omega arith))

take-all : (xs : List ℕ) → take (length xs) xs ≡ xs
take-all [] = refl
take-all (x ∷ xs) = ap (◌∷◌ x) (take-all xs)

drop-all : (xs : List ℕ) → drop (length xs) xs ≡ []
drop-all [] = refl
drop-all (x ∷ xs) = drop-all xs

-- The memory then: what was before, the bytes, and what is behind them.
write_at_lem :
    (k m : ℕ) (bytes to : List ℕ)
    → m ≡ k + length bytes
    → m ≤ length to
    → write_at k bytes to ≡ some (take k to ++ (bytes ++ drop m to))
unfolding write_at
write_at_lem zero m bytes to e h =
    let same : m ≡ length bytes = omega arith in
    memcpy_lem to bytes (length bytes) (omega arith) (omega arith) ∙ rw (same, take-all bytes) refl
write_at_lem (suc k) m bytes [] e h = absurd (omega arith)
write_at_lem (suc k) zero bytes (d ∷ to) e h = absurd (omega arith)
write_at_lem (suc k) (suc m) bytes (d ∷ to) e h =
    ap (on_rest d) (write_at_lem k m bytes to (omega arith) (omega arith))

take-over :
    (n k : ℕ) (xs ys : List ℕ)
    → n ≤ k
    → n ≤ length xs
    → n ≤ length ys
    → take k (take n xs ++ drop n ys) ≡ take n xs ++ drop n (take k ys)
take-over zero k xs ys h hx hy = refl
take-over (suc n) zero xs ys h hx hy = absurd (omega arith)
take-over (suc n) (suc k) [] ys h hx hy = absurd (omega arith)
take-over (suc n) (suc k) (x ∷ xs) [] h hx hy = absurd (omega arith)
take-over (suc n) (suc k) (x ∷ xs) (y ∷ ys) h hx hy =
    ap (◌∷◌ x) (take-over n k xs ys (omega arith) (omega arith) (omega arith))

length-over :
    (n : ℕ) (xs ys : List ℕ)
    → n ≤ length xs
    → n ≤ length ys
    → length (take n xs ++ drop n ys) ≡ length ys
length-over zero xs ys hx hy = refl
length-over (suc n) [] ys hx hy = absurd (omega arith)
length-over (suc n) (x ∷ xs) [] hx hy = absurd (omega arith)
length-over (suc n) (x ∷ xs) (y ∷ ys) hx hy =
    ap suc (length-over n xs ys (omega arith) (omega arith))

covers : (n w : ℕ) → 1 ≤ w → n ≤ n * w
covers n w pos = grind arith

module _ (w : ℕ) (view memory : List ℕ) (pos : 1 ≤ w)
    (e : length memory ≡ length view * w + w) where
  abbrev copied : List ℕ
  copied = take (length view) (text_bytes w view) ++ drop (length view) memory

  memcpy-copied : memcpy memory (text_bytes w view) (length view) ≡ some copied
  memcpy-copied =
      let enough = covers (length view) w pos in
      memcpy_lem memory (text_bytes w view) (length view) (omega arith)
        (omega (arith, length-text_bytes w view))

  size : length copied ≡ length memory
  size =
      let enough = covers (length view) w pos in
      length-over (length view) (text_bytes w view) memory (omega (arith, length-text_bytes w view))
        (omega arith)

  write_copied :
      write_at (length view * w) (unit_bytes w 0) copied
      ≡ some (take (length view * w) copied ++ unit_bytes w 0)
  write_copied =
      write_at_lem (length view * w) (length copied) (unit_bytes w 0) copied
        (omega (arith, size, length-unit_bytes w 0)) (omega arith)
      ∙ rw (drop-all copied, append-nil (unit_bytes w 0)) refl

  -- The copy, where the memory has `size() + 1` units.
  pub copy_lem :
      copy w view memory
      ≡ some (
          take (length view) (text_bytes w view)
          ++ drop (length view) (take (length view * w) memory)
          ++ unit_bytes w 0)
  unfolding copy
  copy_lem =
      let enough = covers (length view) w pos in
      rw (memcpy-copied, copy)
        (write_copied
          ∙ ap (λ x. some (x ++ unit_bytes w 0))
              (take-over (length view) (length view * w) (text_bytes w view) memory enough
                (omega (arith, length-text_bytes w view)) (omega arith)))

-- No unit is 0.
abbrev pub IsText : List ℕ → Type 0
IsText [] = Unit
IsText (u ∷ us) = (u ≢ 0) × IsText us

string_view-text : (us more : List ℕ) → IsText us → string_view (us ++ 0 ∷ more) ≡ some us
unfolding string_view
string_view-text [] more h = refl
string_view-text (u ∷ us) more (h, hs) =
    let other : (u == 0) ≡ false = ground arith in
    rw (string_view-text us more hs, string_view, other) refl

width-pos : (e : Encoding) → 1 ≤ width e
width-pos Encoding.utf8 = omega arith
width-pos Encoding.utf16 = omega arith
width-pos Encoding.utf32 = omega arith

-- A copy of a text is owned and ends in a unit 0. Of its bytes before that unit, as many as the text
-- has units are the text's; the others are what was in the new memory.
pub set_string-copy :
    (e : Encoding) (us more memory : List ℕ)
    → IsText us
    → length memory ≡ length us * width e + width e
    → set_string e (us ++ 0 ∷ more) true memory
      ≡ some (
        kind e,
        true,
        owned (
            take (length us) (text_bytes (width e) us)
            ++ drop (length us) (take (length us * width e) memory)
            ++ unit_bytes (width e) 0),
      )
unfolding set_string
set_string-copy e us more memory h size =
    rw (string_view-text us more h, set_string, copy_lem (width e) us memory (width-pos e) size)
      refl

-- Units of one byte.
abbrev pub AreBytes : List ℕ → Type 0
AreBytes [] = Unit
AreBytes (u ∷ us) = (u < 256) × AreBytes us

text_bytes-one : (us : List ℕ) → AreBytes us → text_bytes 1 us ≡ us
text_bytes-one [] h = refl
text_bytes-one (u ∷ us) (h, hs) =
    let same : u % 256 ≡ u = omega arith in rw (same, text_bytes-one us hs) refl

drop-take : (xs : List ℕ) (n : ℕ) → drop n (take n xs) ≡ []
drop-take xs zero = refl
drop-take [] (suc n) = refl
drop-take (x ∷ xs) (suc n) = drop-take xs n

-- A copy of a UTF-8 text is the text with its end, whatever the new memory held, and is read back.
pub set_string-string_view :
    (us more memory : List ℕ)
    → IsText us
    → AreBytes us
    → length memory ≡ length us + 1
    → (set_string Encoding.utf8 (us ++ 0 ∷ more) true memory
        ≡ some (Kind.string8, true, owned (us ++ 0 ∷ [])))
      × (string_view (us ++ 0 ∷ []) ≡ some us)
set_string-string_view us more memory h small size =
    let one : length us * 1 ≡ length us = omega arith in
    (
      set_string-copy Encoding.utf8 us more memory h (omega arith)
          ∙ rw
              (
                text_bytes-one us small,
                one,
                drop-take memory (length us),
                take-all us,
                append-nil us,
              )
              refl,
      string_view-text us [] h,
    )
