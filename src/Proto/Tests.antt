-- ===== src/Proto/Tests.antt =====
-- The theorems on proto.c at a small table of commands.
use dudld.Common.{
  ℕ, ◌≤◌, ◌≡◌, ◌≢◌, ◌↔◌, inl, refl, some, Bytes, List, [], ◌∷◌, length, codes, same_text,
}
use dudld.Common.Char.{isspace, isalnum}
use dudld.Proto.Dispatch.{
  p_any, p_user, skip_space, val_name, Arg, Cmd, Action, run, too_many, missing_arguments,
  invalid_argument, right_context, cmd_find, parse_args, cmd_parse, proto_line, is_empty, goes_on,
}
use dudld.Proto.Rights.{Fits, IsFirst, here, behind, cmd_find-IsFirst, proto_line-run}

word : Arg Bytes
unfolding val_name isalnum
word = record { name = codes "name"; parse = λ s. ((val_name s).0, length (val_name s).0) }

abbrev quit : Cmd Bytes
quit = record { name = codes "quit"; code = codes "221"; context = p_any; perm = 0; args = [] }

abbrev tagadd : Cmd Bytes
tagadd = record {
  name = codes "tagadd";
  code = codes "271";
  context = p_user;
  perm = 3;
  args = word ∷ [];
}

abbrev table : List (Cmd Bytes)
table = quit ∷ tagadd ∷ []

abbrev request : Bytes
request = codes " tagadd new"

-- proto_line, with its parts in sight.
react : ℕ → Bytes → Action Bytes
unfolding proto_line val_name skip_space cmd_find right_context cmd_parse parse_args is_empty
    goes_on isspace isalnum same_text word
react perm s = proto_line table p_user perm s

runs : react 3 request ≡ run tagadd (codes "new" ∷ [])
unfolding react
runs = refl

lacks : react 3 (codes "tagadd") ≡ missing_arguments
unfolding react
lacks = refl

-- A blank behind the last argument counts as one argument more.
blank : react 3 (codes "quit ") ≡ too_many
unfolding react
blank = refl

sign : react 3 (codes "tagadd !") ≡ invalid_argument (codes "name")
unfolding react
sign = refl

name_request : (val_name (skip_space request)).0 ≡ codes "tagadd"
unfolding val_name skip_space isspace isalnum
name_request = refl

quit_other : ¬ (Fits p_user quit × (quit.name ≡ codes "tagadd"))
quit_other (f, e) = cc

tagadd-IsFirst : IsFirst p_user (codes "tagadd") tagadd table
tagadd-IsFirst = behind quit (tagadd ∷ []) quit_other (here [] (inl refl) refl)

cmd_find-IsFirst_example :
    (cmd_find p_user (codes "tagadd") table ≡ some tagadd)
    ↔ IsFirst p_user (codes "tagadd") tagadd table
cmd_find-IsFirst_example = cmd_find-IsFirst p_user (codes "tagadd") table tagadd

proto_line-run_example :
    IsFirst p_user (val_name (skip_space request)).0 tagadd table
    × (3 ≤ 3)
    × (length (codes "new" ∷ []) ≡ length (word ∷ []))
proto_line-run_example =
    proto_line-run table p_user 3 request tagadd (codes "new" ∷ []) (unfold react in runs)

name_nonempty : (val_name (skip_space request)).0 ≢ []
name_nonempty e = cc (name_request, e)

first_request : IsFirst p_user (val_name (skip_space request)).0 tagadd table
first_request = rw name_request tagadd-IsFirst
