-- ===== src/Commands/Session.antt =====
-- proto_cmd.c: what a command handler works on: the client that asked, the player with its sleep timer, and
-- the database, whose functions are an interface. An `int` is held as its 32-bit pattern.
use dudld.Common.{ℕ, ◌-◌, ◌^◌, ◌==◌, leb, Bool, not, Bytes, List, Option}
use dudld.Common.Memory.{Memory}
use dudld.ParseExpr.Syntax.{Expr}
use dudld.Player.State.{Pipeline, ReplayGain}
use dudld.Player.State as State
use dudld.Sleep.Timer.{Sleep}
use dudld.Proto.Dispatch.{ProtState}
use dudld.Proto.Reply.{Host, Out}
use dudld.Format.Records.{User, Peer, Tag, Artist, Album, Track, History, Queue, Sfilter}

-- `0 > r`
unfoldable pub is_negative : ℕ → Bool
is_negative r = leb (2 ^ 31) r

-- `r` as a condition, and `-1 == r`
unfoldable pub is_nonzero : ℕ → Bool
is_nonzero r = not (r == 0)

unfoldable pub is_minus_one : ℕ → Bool
is_minus_one r = r == 2 ^ 32 - 1

-- The functions of the database, each on its state. A query for several records that failed answers
-- none.
pub record Database : Type 1 where
  pub S : Type 0
  pub user_getn : Bytes → S → S × Option User
  pub user_ok : User → Bytes → Bool
  pub users_list : S → S × List User
  pub user_get : ℕ → S → S × Option User
  pub user_id : Bytes → S → S × ℕ
  pub user_add : Bytes → ℕ → Bytes → S → S × ℕ
  pub user_setpass : ℕ → Bytes → S → S × ℕ
  pub user_setright : ℕ → ℕ → S → S × ℕ
  pub user_del : ℕ → S → S × ℕ
  pub tracks : S → S × ℕ
  pub tracks_search : Bytes → S → S × List Track
  pub tracks_searchf : Expr → S → S × List Track
  pub tracks_albumid : ℕ → S → S × List Track
  pub tracks_artistid : ℕ → S → S × List Track
  pub track_get : ℕ → S → S × Option Track
  pub track_id : ℕ → ℕ → S → S × ℕ
  pub track_setname : ℕ → Bytes → S → S × ℕ
  pub track_setartist : ℕ → ℕ → S → S × ℕ
  pub random_filter : S → S × Option Expr
  pub random_setfilter : Expr → S → S × ℕ
  pub random_filterstat : S → S × ℕ
  pub random_top : ℕ → S → S × List Track
  pub history_list : ℕ → S → S × List History
  pub history_tracklist : ℕ → ℕ → S → S × List History
  pub queue_list : S → S × List Queue
  pub queue_get : ℕ → S → S × Option Queue
  pub queue_add : ℕ → ℕ → S → S × ℕ
  pub queue_del : ℕ → ℕ → S → S × ℕ
  pub queue_clear : S → S × ℕ
  pub queue_sum : S → S × ℕ
  pub tags_list : S → S × List Tag
  pub tag_get : ℕ → S → S × Option Tag
  pub tags_artist : ℕ → S → S × List Tag
  pub tag_id : Bytes → S → S × ℕ
  pub tag_add : Bytes → S → S × ℕ
  pub tag_setname : ℕ → Bytes → S → S × ℕ
  pub tag_setdesc : ℕ → Bytes → S → S × ℕ
  pub tag_del : ℕ → S → S × ℕ
  pub track_tags : ℕ → S → S × List Tag
  pub track_tagadd : ℕ → ℕ → S → S × ℕ
  pub track_tagdel : ℕ → ℕ → S → S × ℕ
  pub track_tagged : ℕ → ℕ → S → S × ℕ
  pub albums_list : S → S × List Album
  pub albums_artistid : ℕ → S → S × List Album
  pub albums_tag : ℕ → S → S × List Album
  pub albums_search : Bytes → S → S × List Album
  pub album_get : ℕ → S → S × Option Album
  pub album_setname : ℕ → Bytes → S → S × ℕ
  pub album_setartist : ℕ → ℕ → S → S × ℕ
  pub album_setyear : ℕ → ℕ → S → S × ℕ
  pub artists_list : S → S × List Artist
  pub artists_search : Bytes → S → S × List Artist
  pub artists_tag : ℕ → S → S × List Artist
  pub artist_get : ℕ → S → S × Option Artist
  pub artist_add : Bytes → S → S × ℕ
  pub artist_setname : ℕ → Bytes → S → S × ℕ
  pub artist_merge : ℕ → ℕ → S → S × ℕ
  pub artist_del : ℕ → S → S × ℕ
  pub sfilters_list : S → S × List Sfilter
  pub sfilter_get : ℕ → S → S × Option Sfilter
  pub sfilter_id : Bytes → S → S × ℕ
  pub sfilter_add : Bytes → S → S × ℕ
  pub sfilter_setname : ℕ → Bytes → S → S × ℕ
  pub sfilter_setfilter : ℕ → Bytes → S → S × ℕ
  pub sfilter_del : ℕ → S → S × ℕ

-- What else the handlers use: the host, the time, strerror( errno ), "%f" of a `double`, the record of a
-- track that the player holds, the clients that are connected, and what the arrays on the stack hold.
pub record World (g : Pipeline) : Type 0 where
  pub host : Host
  pub time : ℕ
  pub error : Bytes
  pub print_real : g.Real → Bytes
  pub record_of : State.Track → Track
  pub clients : List Peer
  pub array : Memory

-- The client, with its `pstate`, `user` and `pdata`, whether it was closed, and whether the fields of a
-- user that is NULL were read; the lines that were broadcast, with the rights that they are for; then the
-- player inside its sleep timer, and the database.
pub record Session (g : Pipeline) (d : Database) : Type 0 where
  pub id : ℕ
  pub sin_addr : ℕ × ℕ × ℕ × ℕ
  pub out : Out
  pub pstate : ProtState
  pub user : Option User
  pub pdata : Option Bytes
  pub closed : Bool
  pub crashed : Bool
  pub bcasts : List (ℕ × Bytes)
  pub sleep : Sleep g
  pub db : d.S
