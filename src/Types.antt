-- ===== src/Types.antt =====
-- `enum metaffi_types` of plugin-sdk-main/runtime/metaffi_primitives.h: one bit for each kind of
-- value, and the array bit that is or-ed to the kind of the elements.
pub mod Flags
use meta_ffi_project.Shared.{ℕ, Bool, not, bit_and, bit_or, Option, none, some, ◌==◌, if◌then◌else◌}

-- The kinds that a value can have at run time.
pub data Kind : Type 0 where
  float64 float32 int8 uint8 int16 uint16 int32 uint32 int64 uint64 : Kind
  bool char8 string8 char16 string16 char32 string32 handle callable null array : Kind

-- Its bit.
abbrev pub code : Kind → ℕ
code Kind.float64 = 1
code Kind.float32 = 2
code Kind.int8 = 4
code Kind.uint8 = 64
code Kind.int16 = 8
code Kind.uint16 = 128
code Kind.int32 = 16
code Kind.uint32 = 256
code Kind.int64 = 32
code Kind.uint64 = 512
code Kind.bool = 1024
code Kind.char8 = 524288
code Kind.string8 = 4096
code Kind.char16 = 1048576
code Kind.string16 = 8192
code Kind.char32 = 2097152
code Kind.string32 = 16384
code Kind.handle = 32768
code Kind.callable = 16777216
code Kind.null = 8388608
code Kind.array = 65536

-- `metaffi_any_type` is a type of declarations: no value carries it.
abbrev pub any_type : ℕ
any_type = 4194304

abbrev pub array_type : ℕ
array_type = 65536

-- `type & metaffi_array_type`, as a test.
unfoldable pub has_array : ℕ → Bool
has_array t = not (bit_and t array_type == 0)

-- `type & ~metaffi_array_type` on 64 bits.
unfoldable pub without_array : ℕ → ℕ
without_array t = bit_and t 0xffff_ffff_fffe_ffff

-- `type | metaffi_array_type`
unfoldable pub with_array : ℕ → ℕ
with_array t = bit_or t array_type

-- The cases of a `switch` over a type; `none` is its `default`.
unfoldable pub kind_of : ℕ → Option Kind
kind_of t =
    if t == 1
    then some Kind.float64
    else (if t == 2
        then some Kind.float32
        else (if t == 4
            then some Kind.int8
            else (if t == 64
                then some Kind.uint8
                else (if t == 8
                    then some Kind.int16
                    else (if t == 128
                        then some Kind.uint16
                        else (if t == 16
                            then some Kind.int32
                            else (if t == 256
                                then some Kind.uint32
                                else (if t == 32
                                    then some Kind.int64
                                    else (if t == 512
                                        then some Kind.uint64
                                        else (if t == 1024
                                            then some Kind.bool
                                            else (if t == 524288
                                                then some Kind.char8
                                                else (if t == 4096
                                                    then some Kind.string8
                                                    else (if t == 1048576
                                                        then some Kind.char16
                                                        else (if t == 8192
                                                            then some Kind.string16
                                                            else (if t == 2097152
                                                            then some Kind.char32
                                                            else (if t == 16384
                                                            then some Kind.string32
                                                            else (if t == 32768
                                                            then some Kind.handle
                                                            else (if t == 16777216
                                                            then some Kind.callable
                                                            else (if t == 8388608
                                                            then some Kind.null
                                                            else (if t == 65536
                                                            then some Kind.array
                                                            else (none)))))))))))))))))))))
