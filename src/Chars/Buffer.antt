-- ===== src/Chars/Buffer.antt =====
-- Characters read from memory: `operator=` of the UTF-8 and the UTF-16 character.
use meta_ffi_project.Shared.{
  ℕ, ◌≤◌, ◌<◌, ◌≡◌, refl, ap, length, length-append, ◌⊎◌, ◌↔◌, List, [], ◌∷◌, ◌++◌, ltb,
  if◌then◌else◌, arith,
}
use native.Mathlib.Decide.{dec_le}
use meta_ffi_project.Chars.{Char8, Char16, ok, invalid_argument, out_of_bounds}
use meta_ffi_project.Chars.Utf8
use meta_ffi_project.Chars.Utf16
use meta_ffi_project.Chars.Plain.{num_of_bytes_lem}
use meta_ffi_project.Chars.RoundTrip.{Encodes}
use meta_ffi_project.Chars.Cross.{IsWellFormed}

-- The bytes of a character in memory, without the zeros that fill the array.
abbrev pub stored : Char8 → List ℕ
stored u =
    if ltb u.c0 0x80
    then u.c0 ∷ []
    else if ltb u.c0 0xe0
    then u.c0 ∷ u.c1 ∷ []
    else if ltb u.c0 0xf0
    then u.c0 ∷ u.c1 ∷ u.c2 ∷ []
    else u.c0 ∷ u.c1 ∷ u.c2 ∷ u.c3 ∷ []

length-stored : (u : Char8) → length (stored u) ≤ 4
length-stored u = ground arith

module _ (u : Char8) (c : ℕ) where
  assign_short :
      (rest : List ℕ) → Encodes u c → (u.c0 < 0xf0) → Utf8.assign (stored u ++ rest) ≡ ok u
  unfolding Utf8.assign
  assign_short [] e h = ground (arith, num_of_bytes_lem u.c0)
  assign_short (a ∷ []) e h = ground (arith, num_of_bytes_lem u.c0)
  assign_short (a ∷ b ∷ []) e h = ground (arith, num_of_bytes_lem u.c0)
  assign_short (a ∷ b ∷ d ∷ rest) e h = ground (arith, num_of_bytes_lem u.c0)

  assign_long :
      (rest : List ℕ) → Encodes u c → (0xf0 ≤ u.c0) → Utf8.assign (stored u ++ rest) ≡ ok u
  unfolding Utf8.assign
  assign_long rest e h = ground (arith, num_of_bytes_lem u.c0)

  -- Whatever follows a character in shortest form in memory, assigning from its first byte reads
  -- that character and nothing of what follows.
  pub assign-stored : (rest : List ℕ) → Encodes u c → Utf8.assign (stored u ++ rest) ≡ ok u
  assign-stored rest e = elim (dec_le 0xf0 u.c0) [
    | yes h ↦ assign_long rest e h
    | no h ↦ assign_short rest e (omega arith)
  ]

  -- Cut anywhere inside, the memory of a character in shortest form is too short: the copy of the
  -- number of bytes that the first byte announces reads past its end.
  pub assign-stored_cut :
      (front back : List ℕ) (x : ℕ)
      → Encodes u c
      → stored u ≡ front ++ (x ∷ back)
      → Utf8.assign front ≡ out_of_bounds
  unfolding Utf8.assign
  assign-stored_cut [] back x e cut = refl
  assign-stored_cut (a ∷ []) back x e cut = ground (arith, num_of_bytes_lem u.c0)
  assign-stored_cut (a ∷ b ∷ []) back x e cut = ground (arith, num_of_bytes_lem u.c0)
  assign-stored_cut (a ∷ b ∷ d ∷ []) back x e cut = ground (arith, num_of_bytes_lem u.c0)
  assign-stored_cut (a ∷ b ∷ d ∷ f ∷ front) back x e cut =
      absurd (omega (arith, ap length cut, length-append front (x ∷ back), length-stored u))

-- An assignment from memory that starts with a byte is refused exactly when that byte is a
-- continuation byte or is above the lead bytes of four.
pub assign_invalid :
    (b : ℕ) (rest : List ℕ)
    → b < 256
    → (Utf8.assign (b ∷ rest) ≡ invalid_argument) ↔ (((0x80 ≤ b) × (b < 0xc0)) ⊎ (0xf8 ≤ b))
unfolding Utf8.assign
assign_invalid b [] h = ground (arith, num_of_bytes_lem b)
assign_invalid b (x ∷ []) h = ground (arith, num_of_bytes_lem b)
assign_invalid b (x ∷ y ∷ []) h = ground (arith, num_of_bytes_lem b)
assign_invalid b (x ∷ y ∷ z ∷ rest) h = ground (arith, num_of_bytes_lem b)

-- Assigning from the units of a well-formed UTF-16 character, whatever follows them, reads that
-- character.
pub assign-units :
    (u : Char16) (rest : List ℕ)
    → IsWellFormed u
    → Utf16.assign
        (u.c0 ∷ (if ltb u.c0 0xd800 then rest else if ltb 0xdbff u.c0 then rest else u.c1 ∷ rest))
      ≡ ok u
unfolding Utf16.assign Utf16.num_of_bytes
assign-units u [] h = ground arith
assign-units u (a ∷ rest) h = ground arith
