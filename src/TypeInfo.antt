-- ===== src/TypeInfo.antt =====
-- `struct metaffi_type_info` of plugin-sdk-main/runtime/metaffi_primitives.h: objects with an alias that
-- may be memory of their own. The objects are in a store, by their addresses, and a block of memory is
-- known by its number.
pub mod Owned
pub mod Steps
pub mod Reach
pub mod Alias
mod Tests
use meta_ffi_project.Shared.{
  ℕ, suc, ◌+◌, List, take, length, Option, none, some, Bool, true, false, ltb, ◌==◌, if◌then◌else◌,
}
use meta_ffi_project.Shared.Int.{ℤ, pos, negsuc}
use meta_ffi_project.Types.{Kind, code}

-- A `char*`: NULL, a text that stays as long as the program, or a block of `new char[]`.
pub data Pointer : Type 0 where
  null : Pointer
  outside : List ℕ → Pointer
  block : ℕ → Pointer

pub record Info : Type 0 where
  pub type : ℕ
  pub alias : Pointer
  pub is_free_alias : Bool
  pub fixed_dimensions : ℤ

-- The objects that are alive, the number of the next block, the texts of the blocks, and which of
-- them were given back.
pub record Store : Type 0 where
  pub objects : ℕ → Option Info
  pub next : ℕ
  pub content : ℕ → List ℕ
  pub released : ℕ → Bool

-- `fault` is a read of no object, of NULL or of a block that was given back, and `delete[]` of such a
-- block or of a pointer that `new` did not return.
pub data Result : Type 0 where
  done : Store → Result
  fault : Result

abbrev pub put : ℕ → Info → Store → Store
put i info st = record st { objects = λ k. if k == i then some info else st.objects k }

abbrev pub remove : ℕ → Store → Store
remove i st = record st { objects = λ k. if k == i then none else st.objects k }

abbrev pub release : ℕ → Store → Store
release b st = record st { released = λ k. if k == b then true else st.released k }

-- `new char[length + 1]` with a text in it: the block is the store's `next`.
abbrev pub allocate : List ℕ → Store → Store
allocate text st = record st {
  next = suc st.next;
  content = λ k. if k == st.next then text else st.content k;
}

-- The text of a pointer.
abbrev pub text_of : Pointer → Store → Option (List ℕ)
text_of Pointer.null st = none
text_of (Pointer.outside text) st = some text
text_of (Pointer.block b) st = if st.released b then none else some (st.content b)

-- `metaffi_type_info(type)`
abbrev pub plain : ℕ → ℤ → Info
plain type dims = record {
  type = type;
  alias = Pointer.null;
  is_free_alias = false;
  fixed_dimensions = dims;
}

-- An alias of its own, in the next block.
abbrev pub own : Info → List ℕ → ℕ → Store → Result
own info text i st =
    Result.done (
      put i (record info { alias = Pointer.block st.next; is_free_alias = true })
        (allocate text st))

-- A copy of the text that an alias holds, which may be read: `none` is a text that is gone.
unfoldable pub construct_copied : ℕ → ℕ → Option (List ℕ) → ℤ → Store → Result
construct_copied i type none dims st = Result.fault
construct_copied i type (some text) dims st = own (plain type dims) text i st

-- `metaffi_type_info(type, alias, is_copy_alias, fixed_dimensions)` at a free address. An alias that is
-- not copied is kept as it is, also where it is a block of another object.
unfoldable pub construct : ℕ → ℕ → Pointer → Bool → ℤ → Store → Result
unfolding construct_copied
construct i type Pointer.null copy dims st = Result.done (put i (plain type dims) st)
construct i type (Pointer.outside text) true dims st = own (plain type dims) text i st
construct i type (Pointer.outside text) false dims st =
    Result.done (put i (record (plain type dims) { alias = Pointer.outside text }) st)
construct i type (Pointer.block b) true dims st =
    construct_copied i type (text_of (Pointer.block b) st) dims st
construct i type (Pointer.block b) false dims st =
    Result.done (put i (record (plain type dims) { alias = Pointer.block b }) st)

-- `set_copy_alias(palias, len)`: `len` bytes, or the whole text for -1.
unfoldable pub set_alias : Option Info → List ℕ → ℤ → ℕ → Store → Result
set_alias none text len i st = Result.fault
set_alias (some info) text (negsuc n) i st = own info text i st
set_alias (some info) text (pos n) i st =
    if ltb (length text + 1) n then Result.fault else own info (take n text) i st

unfoldable pub set_copy_alias : List ℕ → ℤ → ℕ → Store → Result
unfolding set_alias
set_copy_alias text len i st = set_alias (st.objects i) text len i st

-- The alias of a copy: where the source has none, the target keeps what it has.
unfoldable pub copy_alias : Info → Info → Pointer → Option (List ℕ) → ℕ → Store → Result
copy_alias this other Pointer.null text i st =
    Result.done
      (put i (record this { type = other.type; fixed_dimensions = other.fixed_dimensions }) st)
copy_alias this other alias none i st = Result.fault
copy_alias this other alias (some text) i st =
    own (record this { type = other.type; fixed_dimensions = other.fixed_dimensions }) text i st

unfoldable pub copy_between : Option Info → Option Info → ℕ → Store → Result
unfolding copy_alias
copy_between none other i st = Result.fault
copy_between (some this) none i st = Result.fault
copy_between (some this) (some other) i st =
    copy_alias this other other.alias (text_of other.alias st) i st

-- `operator=(const metaffi_type_info&)`
unfoldable pub copy_assign : ℕ → ℕ → Store → Result
unfolding copy_between
copy_assign i j st =
    if i == j then Result.done st else copy_between (st.objects i) (st.objects j) i st

unfoldable pub move_between : Option Info → Option Info → ℕ → ℕ → Store → Result
move_between none other i j st = Result.fault
move_between (some this) none i j st = Result.fault
move_between (some this) (some other) i j st =
    Result.done
      (put j (record other { alias = Pointer.null; is_free_alias = false }) (put i other st))

-- `operator=(metaffi_type_info&&)`
unfoldable pub move_assign : ℕ → ℕ → Store → Result
unfolding move_between
move_assign i j st =
    if i == j then Result.done st else move_between (st.objects i) (st.objects j) i j st

-- The copy and the move constructor at a free address: an object without an alias that is assigned to.
unfoldable pub copy_construct : ℕ → ℕ → Store → Result
unfolding copy_assign
copy_construct i j st = copy_assign i j (put i (plain (code Kind.null) (pos 0)) st)

unfoldable pub move_construct : ℕ → ℕ → Store → Result
unfolding move_assign
move_construct i j st = move_assign i j (put i (plain (code Kind.null) (negsuc 0)) st)

-- `delete[] alias`
unfoldable pub delete_alias : Pointer → Store → Result
delete_alias Pointer.null st = Result.done st
delete_alias (Pointer.outside text) st = Result.fault
delete_alias (Pointer.block b) st =
    if st.released b then Result.fault else Result.done (release b st)

-- The destructor, behind which the object is gone.
unfoldable pub destroy_object : Option Info → ℕ → Store → Result
unfolding delete_alias
destroy_object none i st = Result.fault
destroy_object (some info) i st =
    if info.is_free_alias then delete_alias info.alias (remove i st) else Result.done (remove i st)

unfoldable pub destroy : ℕ → Store → Result
unfolding destroy_object
destroy i st = destroy_object (st.objects i) i st
