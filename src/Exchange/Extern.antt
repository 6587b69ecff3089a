-- ===== src/Exchange/Extern.antt =====
-- The overloads of plugin-sdk-main/runtime/cdts_traverse_construct.cpp for C: an exception becomes a
-- text for the caller, which is told here as the exception and where its memory is from.
use meta_ffi_project.Shared.{ℕ, [], Option, none, some, ◌≡◌, ◌<◌, ap}
use meta_ffi_project.Cdts.{Cdt, Cdts, default_cdt}
use meta_ffi_project.Traverse
use meta_ffi_project.Traverse.{traverse_cdt, traverse_cdts}
use meta_ffi_project.Traverse.Events.{Visitor, complete, replay}
use meta_ffi_project.Construct
use meta_ffi_project.Construct.Run.{construct_cdt, construct_cdts, any_info}
use meta_ffi_project.Construct.Reader.{reader, depth}
use meta_ffi_project.Construct.Values.{IsConstructible}
use meta_ffi_project.Exchange.{outline, IsPresent}
use meta_ffi_project.Exchange.Relay.{goes_in, traverse_cdt-construct_cdt}

pub data Memory : Type 0 where
  new_array malloc_array : Memory

-- What `*out_nul_term_err` says: the pointer that the caller put there, or a text of an exception.
pub data Report (E : Type 0) : Type 0 where
  untouched : Report E
  text : Memory → E → Report E

-- The context and the report; `broken` is no end of the program.
pub data Returned (E S : Type 0) : Type 0 where
  returned : S → Report E → Returned E S
  broken : Returned E S

-- The `try` and the `catch` around a traversal.
unfoldable pub catch_traversal : {S : Type 0} → Traverse.Outcome S → Returned Traverse.Error S
catch_traversal (Traverse.Outcome.finished s) = Returned.returned s Report.untouched
catch_traversal (Traverse.Outcome.thrown e s) = Returned.returned s (Report.text Memory.new_array e)
catch_traversal Traverse.Outcome.fault = Returned.broken

unfoldable pub traverse_cdt_out :
    {S : Type 0} → Cdt → Traverse.Callbacks S → S → Returned Traverse.Error S
unfolding catch_traversal
traverse_cdt_out item cb s = catch_traversal (traverse_cdt item cb [] s)

unfoldable pub traverse_cdts_out :
    {S : Type 0} → Cdts → Traverse.Callbacks S → S → Returned Traverse.Error S
unfolding catch_traversal
traverse_cdts_out arr cb s = catch_traversal (traverse_cdts arr cb [] s)

-- The `try` and the `catch` around a construction. The value is `none` where an exception left it half
-- built.
unfoldable pub catch_construction :
    {S A : Type 0} → Memory → Construct.Outcome S A → Returned Construct.Error (S × Option A)
catch_construction m (Construct.Outcome.built a s) = Returned.returned (s, some a) Report.untouched
catch_construction m (Construct.Outcome.thrown e s) = Returned.returned (s, none) (Report.text m e)
catch_construction m Construct.Outcome.fault = Returned.broken
catch_construction m Construct.Outcome.spent = Returned.broken

unfoldable pub construct_cdt_out :
    {S : Type 0} → ℕ → Construct.Callbacks S → Cdt → S → Returned Construct.Error (S × Option Cdt)
unfolding catch_construction
construct_cdt_out fuel cb item s =
    catch_construction Memory.malloc_array (construct_cdt fuel cb item [] any_info s)

unfoldable pub construct_cdts_out :
    {S : Type 0} → ℕ → Construct.Callbacks S → Cdts → S → Returned Construct.Error (S × Option Cdts)
unfolding catch_construction
construct_cdts_out fuel cb arr s =
    catch_construction Memory.new_array (construct_cdts fuel cb arr [] any_info s)

-- The way of a value through the overloads for C leaves the error pointer of the caller alone, and the
-- traversal tells the value as it was.
pub traverse_cdt_out-construct_cdt_out :
    {S T : Type 0} {c : Cdt} (t : IsConstructible c) (p : IsPresent c) (fuel : ℕ) (v : Visitor T)
    (s : S) (told : T)
    → depth c < fuel
    → (c' : Cdt) × (construct_cdt_out fuel (reader c) default_cdt s
        ≡ Returned.returned (s, some c') Report.untouched)
      × (traverse_cdt_out c' (complete (goes_in v)) told
          ≡ Returned.returned (replay (goes_in v) (outline c []) told) Report.untouched)
unfolding construct_cdt_out traverse_cdt_out catch_construction catch_traversal
traverse_cdt_out-construct_cdt_out t p fuel v s told deep =
    let (c', made, seen) = traverse_cdt-construct_cdt t p fuel v s told deep in
    (c', ap (catch_construction Memory.malloc_array) made, ap catch_traversal seen)
