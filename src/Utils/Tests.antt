-- ===== src/Utils/Tests.antt =====
-- The helpers of plugin-sdk-main/utils on concrete texts, and their theorems there.
mod Boost
mod Loading
use meta_ffi_project.Shared.{
  ℕ, ◌+◌, List, [], ◌∷◌, ◌++◌, codes, Option, none, some, Bool, true, false, ◌≡◌, refl,
  if◌then◌else◌,
}
use meta_ffi_project.Utils
use meta_ffi_project.Utils.{Bytes}
use meta_ffi_project.Utils.Env.{
  System, Found, substitute, expand_loop, expand_env, match_here, regex_search,
}
use meta_ffi_project.Utils.Expand.{References, substitute_all, expand_env-References}
use meta_ffi_project.Utils.Reference.{reading}
use meta_ffi_project.Utils.Variables.{Spelling, spelled, expand_env-spelled}
use meta_ffi_project.Utils.EntityPath.{
  Items, Parsed, parsed, same, get, contains, entity_path_parser,
}
use meta_ffi_project.Utils.EntityPath.Equals.{Judged, HasBad, entity_path_parser-Judged}
use meta_ffi_project.Utils.EntityPath.RoundTrip.{print, last_value, entity_path_parser-print}
use meta_ffi_project.Utils.Tests.Boost.{split, split-Splits, replace_all, replace_all-ReplacesOnce}

-- `PLUGINS` is "lib", and the value of `A` is the reference "$XY".
abbrev variables : Bytes → Option Bytes
variables name =
    if same name (codes "PLUGINS")
    then some (codes "lib")
    else (if same name (codes "A_")
        then some (codes "$XY")
        else (if same name (codes "XY") then some (codes "1") else none))

abbrev linux : System
linux = record { getenv = variables; getcwd = codes "/tmp"; replace_all = replace_all }

-- The spellings of a reference, in the order of the alternatives.
expand_spellings :
    expand_env linux (codes "%PLUGINS%:$Env:PLUGINS;$PLUGINS.${PLUGINS}")
    ≡ some (codes "lib:lib;lib.lib")
unfolding expand_env expand_loop regex_search match_here substitute Utils.Env.iequals replace_all
expand_spellings = refl

-- The value that was put in for the first reference holds the text of the second, and is expanded.
expand_twice : expand_env linux (codes "${A_} $XY") ≡ some (codes "1 1")
unfolding expand_env expand_loop regex_search match_here substitute Utils.Env.iequals replace_all
expand_twice = refl

-- `pwd` is the current directory, and a name of one letter behind `$` is no reference.
expand_others : expand_env linux (codes "$pwd $A %NONE%") ≡ some (codes "/tmp $A %NONE%")
unfolding expand_env expand_loop regex_search match_here substitute Utils.Env.iequals replace_all
expand_others = refl

expand_env-References_example :
    (ms : List Found) × References (codes "${A_} $XY") ms
    × (expand_env linux (codes "${A_} $XY") ≡ some (substitute_all linux ms (codes "${A_} $XY")))
expand_env-References_example = expand_env-References linux (codes "${A_} $XY")

expand_env-spelled_example :
    expand_env linux (codes "a" ++ (codes "$PLUGINS" ++ codes "/b"))
    ≡ some (codes "a" ++ (reading linux (codes "$PLUGINS") (codes "PLUGINS") ++ codes "/b"))
expand_env-spelled_example =
    expand_env-spelled linux Spelling.bare (codes "a") (codes "PLUGINS") (codes "/b")
      replace_all-ReplacesOnce (refl, tt) (refl, (refl, tt))
      ((refl, (refl, (refl, (refl, (refl, (refl, (refl, tt))))))), refl)

parse_entity_path :
    entity_path_parser linux split (codes "class=Foo,,static,dir=$PLUGINS,class=Bar")
    ≡ parsed ((codes "class", codes "Bar") ∷ (codes "static", []) ∷ (codes "dir", codes "lib") ∷ [])
unfolding entity_path_parser Utils.EntityPath.parse_items Utils.EntityPath.parse_item
    Utils.EntityPath.store Utils.EntityPath.insert Utils.EntityPath.insert_expanded expand_env
    expand_loop regex_search match_here substitute Utils.Env.iequals replace_all
parse_entity_path = refl

entity_path_parser-Judged_example :
    Judged
      (HasBad (split b',' (codes "a=1,b=2=3")))
      (entity_path_parser linux split (codes "a=1,b=2=3"))
entity_path_parser-Judged_example =
    entity_path_parser-Judged linux split (codes "a=1,b=2=3") split-Splits

abbrev two_items : Items
two_items = (codes "f", codes "go") ∷ (codes "c", codes "T") ∷ []

entity_path_parser-print_example :
    (items : Items) × (entity_path_parser linux split (codes "f=go,c=T") ≡ parsed items)
    × ((key : Bytes) → get items key ≡ elim (last_value key two_items) [ none ↦ [] | some v ↦ v ])
    × ((key : Bytes)
        → contains items key ≡ elim (last_value key two_items) [ none ↦ false | some v ↦ true ])
entity_path_parser-print_example =
    entity_path_parser-print linux split two_items split-Splits
      (((refl, tt), (refl, (refl, tt))), (((refl, tt), (refl, tt)), tt))
