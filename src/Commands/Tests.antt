-- ===== src/Commands/Tests.antt =====
-- The theorems on proto_cmd.c at concrete sessions.
use dudld.Common.{
  ◌≤◌, ◌≡◌, inl, refl, sym, arith, true, false, Bytes, List, [], ◌∷◌, Option, none, some, codes,
  same_text,
}
use dudld.Common.Char.{isspace, isalnum}
use dudld.Common.Memory.{zeros}
use dudld.Proto.Dispatch.{
  ProtState, p_open, p_user, p_idle, Cmd, Action, proto_line, val_name, skip_space, cmd_find,
  right_context, cmd_parse, parse_args, is_empty, goes_on,
}
use dudld.Format.Records.{User, Tag}
use dudld.Format.Tests.{host, silent, song}
use dudld.Player.Tests.{machine}
use dudld.Sleep.Tests.{awake}
use dudld.Commands.Session.{Database, World, Session}
use dudld.Commands.Handlers.{say}
use dudld.Commands.Users.{perm_of, cmd_user, cmd_help}
use dudld.Commands.Requests.{user, pass, run}
use dudld.Commands.Login.{IsSession}
use dudld.Commands.Sessions.{start, step, Reach-IsSession, proto_line-accepted}
use dudld.Proto.Reply.{proto_rlast}
use dudld.Commands.Help.{tell, keep, is_runnable, cmd_help-lists}

abbrev pub bob : User
bob = record { id = 2; name = codes "bob"; right = 3; pass = codes "x" }

abbrev rock : Tag
rock = record { id = 1; name = codes "rock"; desc = [] }

-- A database with one user and one tag.
abbrev shelf : Database
shelf = record {
  S = Unit;
  user_getn = λ x s. (s, some bob);
  user_ok = λ u word. same_text word (codes "secret");
  users_list = λ s. (s, []);
  user_get = λ x s. (s, none);
  user_id = λ x s. (s, 0);
  user_add = λ x y z s. (s, 0);
  user_setpass = λ x y s. (s, 0);
  user_setright = λ x y s. (s, 0);
  user_del = λ x s. (s, 0);
  tracks = λ s. (s, 0);
  tracks_search = λ x s. (s, []);
  tracks_searchf = λ x s. (s, []);
  tracks_albumid = λ x s. (s, []);
  tracks_artistid = λ x s. (s, []);
  track_get = λ x s. (s, none);
  track_id = λ x y s. (s, 0);
  track_setname = λ x y s. (s, 0);
  track_setartist = λ x y s. (s, 0);
  random_filter = λ s. (s, none);
  random_setfilter = λ x s. (s, 0);
  random_filterstat = λ s. (s, 0);
  random_top = λ x s. (s, []);
  history_list = λ x s. (s, []);
  history_tracklist = λ x y s. (s, []);
  queue_list = λ s. (s, []);
  queue_get = λ x s. (s, none);
  queue_add = λ x y s. (s, 0);
  queue_del = λ x y s. (s, 0);
  queue_clear = λ s. (s, 0);
  queue_sum = λ s. (s, 0);
  tags_list = λ s. (s, rock ∷ []);
  tag_get = λ x s. (s, some rock);
  tags_artist = λ x s. (s, []);
  tag_id = λ x s. (s, 0);
  tag_add = λ x s. (s, 0);
  tag_setname = λ x y s. (s, 0);
  tag_setdesc = λ x y s. (s, 0);
  tag_del = λ x s. (s, 0);
  track_tags = λ x s. (s, []);
  track_tagadd = λ x y s. (s, 0);
  track_tagdel = λ x y s. (s, 0);
  track_tagged = λ x y s. (s, 0);
  albums_list = λ s. (s, []);
  albums_artistid = λ x s. (s, []);
  albums_tag = λ x s. (s, []);
  albums_search = λ x s. (s, []);
  album_get = λ x s. (s, none);
  album_setname = λ x y s. (s, 0);
  album_setartist = λ x y s. (s, 0);
  album_setyear = λ x y s. (s, 0);
  artists_list = λ s. (s, []);
  artists_search = λ x s. (s, []);
  artists_tag = λ x s. (s, []);
  artist_get = λ x s. (s, none);
  artist_add = λ x s. (s, 0);
  artist_setname = λ x y s. (s, 0);
  artist_merge = λ x y s. (s, 0);
  artist_del = λ x s. (s, 0);
  sfilters_list = λ s. (s, []);
  sfilter_get = λ x s. (s, none);
  sfilter_id = λ x s. (s, 0);
  sfilter_add = λ x s. (s, 0);
  sfilter_setname = λ x y s. (s, 0);
  sfilter_setfilter = λ x y s. (s, 0);
  sfilter_del = λ x s. (s, 0);
}

abbrev pub world : World machine
world = record {
  host = host;
  time = 0;
  error = [];
  print_real = λ r. [];
  record_of = λ t. song;
  clients = [];
  array = zeros 1024;
}

abbrev session : ProtState → Option User → Session machine shelf
session state u = record {
  id = 1;
  sin_addr = (127, 0, 0, 1);
  out = silent;
  pstate = state;
  user = u;
  pdata = none;
  closed = false;
  crashed = false;
  bcasts = [];
  sleep = awake;
  db = tt;
}

abbrev tagging : Cmd Bytes
tagging = record {
  name = codes "tagging";
  code = codes "270";
  context = p_idle;
  perm = 3;
  args = [];
}

abbrev pub table : List (Cmd Bytes)
table = tagging ∷ []

in_p_idle : IsSession (session p_idle (some bob))
unfolding same_text
in_p_idle = ((bob, codes "secret", refl, refl), refl)

abbrev named : Session machine shelf
named = run table world (user (codes "bob")) (codes "320") (session p_open none)

named_state : named.pstate ≡ p_user
unfolding run cmd_user say
named_state = refl

Reach-IsSession_example : IsSession (run table world (pass (codes "secret")) (codes "221") named)
Reach-IsSession_example =
    Reach-IsSession world table (λ x. refl) (session p_open none) _ (refl, refl)
      (step named (step _ start (user (codes "bob")) (codes "320") (inl refl))
        (pass (codes "secret")) (codes "221") (inl (sym named_state)))

-- proto_line, with its parts in sight.
react : Bytes → Action Bytes
unfolding proto_line val_name skip_space cmd_find right_context cmd_parse parse_args is_empty
    goes_on isspace isalnum same_text perm_of
react s = proto_line table p_idle (perm_of (some bob)) s

runs : react (codes "tagging") ≡ Action.run tagging []
unfolding react
runs = refl

proto_line-accepted_example :
    (p_idle ≡ p_idle)
    × ((x : User) × (word : Bytes) × (some bob ≡ some x)
        × (same_text word (codes "secret") ≡ true)
        × (3 ≤ x.right))
proto_line-accepted_example =
    proto_line-accepted table (codes "tagging") tagging [] (session p_idle (some bob)) in_p_idle
      (omega arith) (unfold react in runs)

cmd_help-lists_example :
    (cmd_help world table (codes "213") (session p_idle (some bob))).out
    ≡ (proto_rlast host (codes "213") [] (
        tell host
          (codes "213")
          (keep (is_runnable p_idle (perm_of (some bob)) table) table)
          silent)).1
cmd_help-lists_example =
    cmd_help-lists world table (codes "213") (session p_idle (some bob)) (tt, tt)
