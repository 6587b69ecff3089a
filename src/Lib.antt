-- ===== src/Lib.antt =====
-- Verification of the C and C++ runtime SDK of MetaFFI.
--
-- MetaFFI lets a program in one language call code of another. XLLR, a shared library, keeps the
-- plugins of the languages; this SDK is what both sides link: it passes values between them as
-- CDTs (common data types), converts characters, and forwards every call to XLLR through
-- function pointers that it loads on first use; a function of another language is an xcall. A
-- caller builds a cdts by construct_cdts, whose callbacks read the values of its language; hands
-- it to xllr_xcall_params_ret and the like, which link XLLR if nothing is loaded yet and call
-- it; and the other side reads the values by traverse_cdts, whose callbacks make values of its
-- own language. Characters travel inside a cdt as metaffi_char8, metaffi_char16 or
-- metaffi_char32, which convert into each other.
--
-- The files, and the code that each is about:
-- - Shared.antt, Shared/: names of the libraries, Boolean tests, lists over the native numbers,
--   the laws of masks and shifts, signed integers. No code of the program.
-- - Chars.antt, Chars/Utf8.antt, Utf16.antt, Utf32.antt: metaffi_char8, metaffi_char16 and
--   metaffi_char32 of plugin-sdk-main/runtime/metaffi_primitives.h and metaffi_primitives.cpp,
--   one definition for each assignment and conversion. Chars/Plain.antt has what the bit
--   arithmetic is in numbers; Agree, RoundTrip, Cross and Buffer have the theorems.
-- - Types.antt: enum metaffi_types of metaffi_primitives.h and the operations on its array bit.
-- - Cdts.antt, Cdts/Memory.antt: struct cdt and struct cdts of plugin-sdk-main/runtime/cdt.h and
--   cdt.cpp as trees; what they own, with cdt::free, cdts::free, the destructors, cdts::set and
--   the setters of arrays and handles. Cdts/Free.antt, Once.antt, Apart.antt and Set.antt have
--   the theorems. Cdts/Handles.antt: cdt_metaffi_handle in memory, and what freeing does to it.
--   Cdts/Objects.antt: the constructors that take a pointer, a length or another array, and
--   plugin-sdk-main/runtime/cdts_wrapper.cpp. Cdts/Scalar.antt: the assignments and conversions
--   of single values, with the union as 64 bits. Cdts/Text.antt: set_string, with memory as
--   bytes; Text/Copy.antt and Depends.antt have its theorems.
-- - Traverse.antt: traverse_cdt and traverse_cdts of
--   plugin-sdk-main/runtime/cdts_traverse_construct.cpp. Traverse/Events.antt says, apart from
--   the code, what a traversal is to report; Complete and Stops have the theorems.
-- - Construct.antt, Construct/Member.antt, Shape.antt, Run.antt: construct_cdt and
--   construct_cdts of the same file. Construct/Reader.antt has callbacks that read a value,
--   Values.antt says which values a construction can give, and Settled.antt what it makes of a
--   value that it reads; Scans, Cases, Tested, Copy, Every, Sound, Typed, Kinds, Safe, Ends,
--   Stops and Freed have the theorems.
-- - Capi.antt, Capi/Library.antt, Load.antt, Wrappers.antt, Table.antt:
--   plugin-sdk-main/runtime/xllr_capi_loader.c: the platform's loader functions, load_xllr_capi,
--   load_xllr, free_xllr and load_metaffi_library, the macro check_function_pointer with the 25
--   wrappers, and the table of what each wrapper calls. Linked, Forward, Unload and Paths have
--   the theorems; Machine has the states that a process can bring the file to, and Refine
--   compares any sequence of calls with those of a client that is linked with XLLR.
--   Capi/Static.antt: plugin-sdk-main/runtime/xllr_static_capi_loader.cpp. Capi/Threads.antt:
--   the wrappers on several threads, one access to a static variable at a step; Threads/Kept,
--   Served, Bounded, Answers, Ready and Alone have the theorems. Capi/Windows.antt: the loading
--   and freeing of XLLR as the file is built for Windows.
-- - Xcall.antt: plugin-sdk-main/runtime/xcall.h: a function of another language with its
--   context, its copies and moves, the calls through it and the scope guard. Xcall/Moves.antt
--   and Calls.antt have the theorems.
-- - Callable.antt: cdt_metaffi_callable of plugin-sdk-main/runtime/metaffi_primitives.h: the
--   types of a callable object in arrays of its own, with the conversion of their sizes to 8
--   bits. Callable/Vectors.antt and Compare.antt have the theorems.
-- - Exchange.antt, Exchange/Extern.antt: the overloads of traverse_cdt, traverse_cdts,
--   construct_cdt and construct_cdts for C, and what a value says that one side constructs and
--   the other traverses; Exchange/Relay.antt and Extern.antt have the theorems.
-- - TypeInfo.antt: metaffi_type_info of plugin-sdk-main/runtime/metaffi_primitives.h, as objects
--   in a store whose aliases may be blocks of memory. TypeInfo/Owned.antt says who owns a block;
--   Steps, Reach and Alias have the theorems.
-- - Utils/Env.antt: plugin-sdk-main/utils/expand_env.cpp with the matches of its regular
--   expression; Search, Expand, Plain, Reference, Spellings and Variables have the theorems.
--   Utils/EntityPath.antt: entity_path_parser.cpp; EntityPath/Split.antt, Equals.antt and
--   RoundTrip.antt have the theorems. Utils/Library.antt: library_loader.cpp. Utils/Plugin.antt:
--   plugin_loader.hpp; Plugin/Find.antt has the theorems. Utils/ApiWrapper.antt:
--   xllr_api_wrapper.cpp; ApiWrapper/Bound.antt has the theorem. Utils/Singleton.antt:
--   singleton.hpp.
-- - The files Tests.antt run the definitions, and the theorems, at concrete values.
--
-- How state is modelled. The static variables of the C API loader are a record that every
-- function takes and returns. The callbacks of a traversal or a construction are functions on a
-- state, which stands for what is behind their context pointer, or are missing as a null pointer
-- is. A CDT array owns its elements, so a cdt is a tree; 64 bits stand for every other member of
-- the union, a pointer to a string, a handle or a callable being its address; the text behind a
-- string is modelled where it is set. No two cdt own one array; two may hold one pointer.
-- Exceptions are values; a step without a meaning in the source (a null call, a read through a
-- union member that was not written, a write past a buffer, a signed overflow) is a value of its
-- own, so that a theorem that a result is reached also says that no such step is taken. A delete
-- of what was deleted, a free of the message of dlerror and a call into a library that was
-- closed are such steps too. Threads are program counters over one record of the static
-- variables; a list of thread numbers says who makes the next access, and accesses are taken as
-- single and as seen by all threads at once, which C promises for atomic variables alone.
--
-- Integers are natural numbers with the widths of the source written out as remainders or as
-- bounds; the length of a path, of a home directory or of an array is compared with the size
-- that the source gives its buffer or counter.
--
-- Recursion. A traversal follows the tree. A construction asks its callbacks how deep to go and
-- need not end; it runs on fuel, one for each level of arrays, and the theorems say that any
-- fuel above the nesting of the value is enough, and for a construction any above the depth at
-- which the callbacks have no array any more. The loop of expand_env runs on the length of its
-- text and one more as fuel, and a theorem says that this is enough.
--
-- Parameters. The dynamic linker, the environment and the entry points of XLLR are not part of
-- the repository; the records Platform of Capi.antt and System of Capi/Windows.antt have them as
-- functions, without hypotheses where a theorem does not say so, but that a call of dlopen,
-- dlsym or dlclose that fails leaves a message, as POSIX has it. What dlsym gives for a handle
-- does not change when the handle is closed; a call through what it gave then has no meaning.
-- getenv, getcwd, the file system, boost::split, boost::algorithm::replace_all and boost::dll
-- are parameters of the files below Utils; what a theorem relies on is named there: Splits of
-- EntityPath/Split.antt says how boost::split cuts a text, and ReplacesOnce of Reference.antt
-- what replace_all does with a text that occurs once. Utils/Tests/Boost.antt has functions that
-- do both.
--
-- Not modelled: load_metaffi_library and the wrappers on Windows, the Windows half of
-- expand_env, printing, the macro metaffi_type_to_str, scope_guard.hpp and the other macros of
-- plugin-sdk-main/utils, runtime/plugin_interface.cpp, the compiler SDK in Go, and the copies of
-- other projects under node_modules and include.
pub mod Shared
pub mod Chars
pub mod Capi
pub mod Types
pub mod Cdts
pub mod Traverse
pub mod Construct
pub mod Xcall
pub mod Callable
pub mod Exchange
pub mod TypeInfo
pub mod Utils
