-- ===== src/Pgdb/Kept/Tags.antt =====
-- pgdb/tag.c and pgdb/sfilter.c send statements and clear their results.
use dudld.Common.{ℕ, zero, suc, refl, some, none, Bytes, Option, ltb}
use dudld.Commands.Session.{is_negative}
use dudld.Format.Records.{Tag}
use dudld.Pgdb.Server.{Result, Server, Db, tag_changed}
use dudld.Pgdb.Connection.{is_command}
use dudld.Sql.Reading.{outside}
use dudld.Pgdb.Statement.{query_place}
use dudld.Pgdb.Runs.{
  IsClean, Keeps, with_result, Runs-pure, Runs-bind, Runs-then, Runs-if, Keeps-call, Keeps-bind,
  Runs-db_query,
}
use dudld.Pgdb.Kept.{
  Keeps-clear, Keeps-told, Keeps-select-pure, Keeps-command, Keeps-iterate, Keeps-select_id,
  Keeps-nextval, Keeps-with_id,
}
use dudld.Pgdb.Tags.{
  sfilter_add, sfilter_del, sfilter_get, sfilter_id, sfilter_setfilter, sfilter_setname,
  sfilters_list, tag_add, tag_del, tag_get, tag_id, tag_setdesc, tag_setname, tag_track,
  tags_artist, tags_list, tell_changed, tell_deleted, track_tagadd, track_tagdel, track_tagged,
  track_tags, iterate_tags,
}

module _ {p : Server} (opened_cb : Db p → Db p)
    (opened : (k : ℕ) (s : Db p) → IsClean k s → IsClean k (opened_cb s)) (k : ℕ) where
  pub Keeps-tag_get : (id : ℕ) → Keeps k (tag_get p opened_cb id)
  unfolding tag_get query_place
  Keeps-tag_get id = Keeps-select-pure opened_cb opened k _ _ _ (outside, refl)

  pub Keeps-tag_id : (name : Bytes) → Keeps k (tag_id p opened_cb name)
  unfolding tag_id query_place
  Keeps-tag_id name = Keeps-select_id opened_cb opened k _ (outside, refl)

  pub Keeps-tags_list : Keeps k (tags_list p opened_cb)
  unfolding tags_list iterate_tags query_place
  Keeps-tags_list = Keeps-iterate opened_cb opened k _ _ (outside, refl) (λ r tup. Runs-pure _ _)

  pub Keeps-tags_artist : (aid : ℕ) → Keeps k (tags_artist p opened_cb aid)
  unfolding tags_artist iterate_tags query_place
  Keeps-tags_artist aid =
      Keeps-iterate opened_cb opened k _ _ (outside, refl) (λ r tup. Runs-pure _ _)

  pub Keeps-track_tags : (tid : ℕ) → Keeps k (track_tags p opened_cb tid)
  unfolding track_tags iterate_tags query_place
  Keeps-track_tags tid =
      Keeps-iterate opened_cb opened k _ _ (outside, refl) (λ r tup. Runs-pure _ _)

  Keeps-tell_changed : (id r : ℕ) → Keeps k (tell_changed p opened_cb id r)
  unfolding tell_changed
  Keeps-tell_changed id r =
      Keeps-bind (Runs-if (is_negative r) (Runs-pure k none) (Keeps-tag_get id))
        (λ t. Keeps-told k t tag_changed r)

  pub Keeps-tag_add : (name : Bytes) → Keeps k (tag_add p opened_cb name)
  unfolding tag_add query_place
  Keeps-tag_add name = Keeps-bind (Keeps-nextval opened_cb opened k _ (outside, refl)) (
      Keeps-with_id opened_cb opened k _ (λ id.
        Keeps-bind (Keeps-command opened_cb opened k _ _ _ (outside, refl))
          (Keeps-tell_changed id)))

  pub Keeps-tag_setname : (id : ℕ) (name : Bytes) → Keeps k (tag_setname p opened_cb id name)
  unfolding tag_setname query_place
  Keeps-tag_setname id name =
      Keeps-bind (Keeps-command opened_cb opened k _ _ _ (outside, refl)) (Keeps-tell_changed id)

  pub Keeps-tag_setdesc : (id : ℕ) (desc : Bytes) → Keeps k (tag_setdesc p opened_cb id desc)
  unfolding tag_setdesc query_place
  Keeps-tag_setdesc id desc =
      Keeps-bind (Keeps-command opened_cb opened k _ _ _ (outside, refl)) (Keeps-tell_changed id)

  Keeps-tell_deleted :
      (j : ℕ) (t : Option Tag) (res : Option Result) → Keeps j (tell_deleted p opened_cb t res)
  unfolding tell_deleted
  Keeps-tell_deleted j none res = Runs-pure j tt
  Keeps-tell_deleted j (some t) res = Runs-if (is_command res) (Keeps-call j _) (Runs-pure j tt)

  pub Keeps-tag_del : (id : ℕ) → Keeps k (tag_del p opened_cb id)
  unfolding tag_del query_place
  Keeps-tag_del id = Keeps-bind (Keeps-tag_get id) (λ t.
      Runs-bind (with_result k) (Runs-db_query opened_cb opened k _ (outside, refl))
        (λ res. Runs-then (with_result k res) (Keeps-tell_deleted _ t res) (Keeps-clear k res _)))

  pub Keeps-track_tagged : (tid : ℕ) (id : ℕ) → Keeps k (track_tagged p opened_cb tid id)
  unfolding track_tagged query_place
  Keeps-track_tagged tid id = Keeps-select-pure opened_cb opened k _ _ _ (outside, refl)

  Keeps-tag_track : (tid id : ℕ) (o : Option ℕ) → Keeps k (tag_track p opened_cb tid id o)
  unfolding tag_track query_place
  Keeps-tag_track tid id none = Runs-pure k _
  Keeps-tag_track tid id (some zero) = Runs-pure k _
  Keeps-tag_track tid id (some (suc n)) = Keeps-bind (Keeps-track_tagged tid id) (λ r.
      Runs-if (is_negative r) (Runs-pure k _) (
        Runs-if (ltb 0 r) (Runs-pure k _) (Keeps-command opened_cb opened k _ _ _ (outside, refl))))

  pub Keeps-track_tagadd : (tid : ℕ) (id : ℕ) → Keeps k (track_tagadd p opened_cb tid id)
  unfolding track_tagadd query_place
  Keeps-track_tagadd tid id =
      Keeps-bind (Keeps-select-pure opened_cb opened k _ _ _ (outside, refl))
        (Keeps-tag_track tid id)

  pub Keeps-track_tagdel : (tid : ℕ) (id : ℕ) → Keeps k (track_tagdel p opened_cb tid id)
  unfolding track_tagdel query_place
  Keeps-track_tagdel tid id = Keeps-command opened_cb opened k _ _ _ (outside, refl)

  pub Keeps-sfilter_get : (id : ℕ) → Keeps k (sfilter_get p opened_cb id)
  unfolding sfilter_get query_place
  Keeps-sfilter_get id = Keeps-select-pure opened_cb opened k _ _ _ (outside, refl)

  pub Keeps-sfilter_id : (name : Bytes) → Keeps k (sfilter_id p opened_cb name)
  unfolding sfilter_id query_place
  Keeps-sfilter_id name = Keeps-select_id opened_cb opened k _ (outside, refl)

  pub Keeps-sfilters_list : Keeps k (sfilters_list p opened_cb)
  unfolding sfilters_list query_place
  Keeps-sfilters_list =
      Keeps-iterate opened_cb opened k _ _ (outside, refl) (λ r tup. Runs-pure _ _)

  pub Keeps-sfilter_add : (name : Bytes) → Keeps k (sfilter_add p opened_cb name)
  unfolding sfilter_add query_place
  Keeps-sfilter_add name = Keeps-bind (Keeps-nextval opened_cb opened k _ (outside, refl)) (
      Keeps-with_id opened_cb opened k _
        (λ id. Keeps-command opened_cb opened k _ _ _ (outside, refl)))

  pub Keeps-sfilter_del : (id : ℕ) → Keeps k (sfilter_del p opened_cb id)
  unfolding sfilter_del query_place
  Keeps-sfilter_del id = Keeps-command opened_cb opened k _ _ _ (outside, refl)

  pub Keeps-sfilter_setname :
      (id : ℕ) (name : Bytes) → Keeps k (sfilter_setname p opened_cb id name)
  unfolding sfilter_setname query_place
  Keeps-sfilter_setname id name = Keeps-command opened_cb opened k _ _ _ (outside, refl)

  pub Keeps-sfilter_setfilter :
      (id : ℕ) (filter : Bytes) → Keeps k (sfilter_setfilter p opened_cb id filter)
  unfolding sfilter_setfilter query_place
  Keeps-sfilter_setfilter id filter = Keeps-command opened_cb opened k _ _ _ (outside, refl)
