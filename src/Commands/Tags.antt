-- ===== src/Commands/Tags.antt =====
-- proto_cmd.c: the handlers on the queue and on tags.
use dudld.Common.{ℕ, ◌==◌, if◌then◌else◌, true, Bytes, none, some, codes}
use dudld.Player.State.{Pipeline}
use dudld.Format.Dump.{dump_queue, dump_queues, dump_tag, dump_tags}
use dudld.Commands.Session.{Database, World, is_negative, is_nonzero, is_minus_one}
use dudld.Commands.Broadcast.{r_master}
use dudld.Commands.Handlers.{Handler, reply_list, reply_record, reply_number, reply_done}

module _ {g : Pipeline} {d : Database} (w : World g) where
  unfoldable pub cmd_queuelist : Handler g d
  cmd_queuelist = reply_list w (dump_queues w.host) d.queue_list

  unfoldable pub cmd_queueget : ℕ → Handler g d
  cmd_queueget id =
      reply_record w (dump_queue w.host) (d.queue_get id) (codes "501")
        (codes "queue entry not found")

  unfoldable pub cmd_queueadd : ℕ → Handler g d
  cmd_queueadd id code s = elim s.user [
    | none ↦ record s { crashed = true }
    | some u ↦
        reply_number w is_minus_one (d.queue_add id u.id) (codes "561")
          (codes "failed to add track to queue") code s
  ]

  unfoldable pub cmd_queuedel : ℕ → Handler g d
  cmd_queuedel id code s = elim s.user [
    | none ↦ record s { crashed = true }
    | some u ↦
        let uid : ℕ = if u.right == r_master then 0 else u.id in
        reply_done w is_nonzero (d.queue_del id uid) (codes "562")
          (codes "failed to delete from queue") (codes "track removed from queue") code s
  ]

  unfoldable pub cmd_queueclear : Handler g d
  cmd_queueclear =
      reply_done w is_nonzero d.queue_clear (codes "563") (codes "failed to clear queue")
        (codes "queue cleared")

  unfoldable pub cmd_queuesum : Handler g d
  cmd_queuesum = reply_number w is_negative d.queue_sum (codes "510") (codes "internal error")

  unfoldable pub cmd_taglist : Handler g d
  cmd_taglist = reply_list w (dump_tags w.host) d.tags_list

  unfoldable pub cmd_tagget : ℕ → Handler g d
  cmd_tagget id =
      reply_record w (dump_tag w.host) (d.tag_get id) (codes "511") (codes "no such tag")

  unfoldable pub cmd_tagsartist : ℕ → Handler g d
  cmd_tagsartist aid = reply_list w (dump_tags w.host) (d.tags_artist aid)

  unfoldable pub cmd_tag2id : Bytes → Handler g d
  cmd_tag2id name = reply_number w is_negative (d.tag_id name) (codes "511") (codes "no such tag")

  unfoldable pub cmd_tagadd : Bytes → Handler g d
  cmd_tagadd name = reply_number w is_negative (d.tag_add name) (codes "511") (codes "failed")

  unfoldable pub cmd_tagsetname : ℕ → Bytes → Handler g d
  cmd_tagsetname id name =
      reply_done w is_nonzero (d.tag_setname id name) (codes "511") (codes "failed")
        (codes "name changed")

  unfoldable pub cmd_tagsetdesc : ℕ → Bytes → Handler g d
  cmd_tagsetdesc id desc =
      reply_done w is_nonzero (d.tag_setdesc id desc) (codes "511") (codes "failed")
        (codes "desc changed")

  unfoldable pub cmd_tagdel : ℕ → Handler g d
  cmd_tagdel id =
      reply_done w is_nonzero (d.tag_del id) (codes "511") (codes "failed") (codes "deleted")

  unfoldable pub cmd_tracktaglist : ℕ → Handler g d
  cmd_tracktaglist id = reply_list w (dump_tags w.host) (d.track_tags id)

  unfoldable pub cmd_tracktagadd : ℕ → ℕ → Handler g d
  cmd_tracktagadd trackid tagid =
      reply_done w is_nonzero (d.track_tagadd trackid tagid) (codes "511") (codes "failed")
        (codes "tag added to track (or already exists)")

  unfoldable pub cmd_tracktagdel : ℕ → ℕ → Handler g d
  cmd_tracktagdel trackid tagid =
      reply_done w is_nonzero (d.track_tagdel trackid tagid) (codes "511") (codes "failed")
        (codes "tag deleted from track")

  unfoldable pub cmd_tracktagged : ℕ → ℕ → Handler g d
  cmd_tracktagged trackid tagid =
      reply_number w is_negative (d.track_tagged trackid tagid) (codes "511") (codes "failed")
