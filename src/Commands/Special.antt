-- ===== src/Commands/Special.antt =====
-- What the handlers of proto_cmd.c that have a shape of their own do for the client.
use dudld.Common.{
  ℕ, Bool, true, false, ◌≡◌, ◌≢◌, ◌⊎◌, inl, inr, refl, sym, if◌then◌else◌, Bytes, List, [], ◌∷◌,
  ◌++◌, append-nil, Option, none, some, map, codes,
}
use dudld.Common.Memory.{c_string}
use dudld.ParseExpr.Syntax.{Expr}
use dudld.ParseExpr.Parser.{Parsed, parsed, failed, gave_up, expr_parse_str}
use dudld.ParseExpr.Print.{expr_fmt}
use dudld.ParseExpr.Termination.{expr_parse_str-ends}
use dudld.Player.State.{Pipeline}
use dudld.Player.State as State
use dudld.Proto.Dispatch.{ProtState, Cmd}
use dudld.Proto.Reply.{Host, Out, proto_rline, proto_rlast}
use dudld.Proto.Answers.{Continued-last, proto_rline-Continued, proto_vline-failed, lines-append}
use dudld.Format.Records.{mkclient, mktrack}
use dudld.Format.Dump.{dump_clients, dump_track, dump_tracks}
use dudld.Format.Answers.{dump_one-Answered, dump_all-Answered}
use dudld.Commands.Session.{Database, World, Session}
use dudld.Commands.Broadcast.{player_track}
use dudld.Commands.Handlers.{say}
use dudld.Commands.Users.{cmd_quit, cmd_clientlist, cmd_help, help_loop, perm_of}
use dudld.Commands.Playing.{cmd_curtrack}
use dudld.Commands.Tracks.{cmd_filter, cmd_tracksearchf, cmd_filterset, bad_filter}
use dudld.Commands.Albums.{cmd_sfiltersetfilter}
use dudld.Commands.Answers.{
  Handled, say-Handled, asked-Handled, reply_list-Handled, reply_done-Handled,
}

either : (P : Out → Type 0) (b : Bool) (x y : Out) → P x → P y → P (if b then x else y)
either P true x y h k = h
either P false x y h k = k

-- What the loop of cmd_help leaves.
abbrev Listed : Out → Out → Type 0
Listed o p = (p.failed ≡ true) ⊎ ((ls : List Bytes) × (p.sent ≡ o.sent ++ map (λ l. (false, l)) ls))

module _ (h : Host) where
  proto_rline-failed :
      (code text : Bytes) (o : Out) → o.failed ≡ true → (proto_rline h code text o).1.failed ≡ true
  unfolding proto_rline
  proto_rline-failed code text o f = proto_vline-failed h false code text o f

  help_loop-failed :
      {D : Type 0} (code : Bytes) (state : ProtState) (perm : ℕ) (cs : List (Cmd D)) (o : Out)
      → o.failed ≡ true
      → (help_loop h code state perm cs o).failed ≡ true
  unfolding help_loop
  help_loop-failed code state perm [] o f = f
  help_loop-failed code state perm (c ∷ cs) o f =
      either (λ p. p.failed ≡ true) _ _ _ (help_loop-failed code state perm cs o f)
        (help_loop-failed code state perm cs _ (proto_rline-failed code c.name o f))

  help_loop-Listed :
      {D : Type 0} (code : Bytes) (state : ProtState) (perm : ℕ) (cs : List (Cmd D)) (o : Out)
      → Listed o (help_loop h code state perm cs o)
  unfolding help_loop
  help_loop-Listed code state perm [] o = inr ([], sym (append-nil o.sent))
  help_loop-Listed code state perm (c ∷ cs) o =
      either (Listed o) _ _ _ (help_loop-Listed code state perm cs o) (
        let p = (proto_rline h code c.name o).1 in
        elim (proto_rline-Continued h code c.name o) [
          | inl (r, f) ↦ inl (help_loop-failed code state perm cs p f)
          | inr (ls, r, e) ↦ elim (help_loop-Listed code state perm cs p) [
            | inl f ↦ inl f
            | inr (ks, u) ↦
                inr (ls ++ ks, lines-append o p (help_loop h code state perm cs p) ls ks e u)
          ]
        ])

module _ {g : Pipeline} {d : Database} (w : World g) where
  pub cmd_quit-Handled : (code : Bytes) (s : Session g d) → Handled s (cmd_quit w code s)
  unfolding cmd_quit
  cmd_quit-Handled code s =
      let h =
        say-Handled w code (codes "bye") s s
          (record { pstate = refl; user = refl; pdata = refl; crashed = refl }) refl in
      record {
        answered = h.answered;
        keeps = record {
          pstate = h.keeps.pstate;
          user = h.keeps.user;
          pdata = h.keeps.pdata;
          crashed = h.keeps.crashed;
        };
      }

  pub cmd_clientlist-Handled :
      (code : Bytes) (s : Session g d) → Handled s (cmd_clientlist w code s)
  unfolding cmd_clientlist dump_clients
  cmd_clientlist-Handled code s = record {
    answered = dump_all-Answered w.host mkclient code w.clients s.out;
    keeps = record { pstate = refl; user = refl; pdata = refl; crashed = refl };
  }

  pub cmd_curtrack-Handled : (code : Bytes) (s : Session g d) → Handled s (cmd_curtrack w code s)
  unfolding cmd_curtrack dump_track
  cmd_curtrack-Handled code s = answer (player_track s.sleep.player).0
    where
      t : Session g d
      t = record s { sleep = record s.sleep { player = (player_track s.sleep.player).1 } }

      answer :
          (o : Option State.Track)
          → Handled s (elim o [
            | none ↦ say w (codes "541") (codes "nothing playing (maybe in a gap?)") t
            | some x ↦ record t { out = dump_track w.host code (w.record_of x) s.out }
          ])
      answer none =
          say-Handled w _ _ s t
            (record { pstate = refl; user = refl; pdata = refl; crashed = refl }) refl
      answer (some x) = record {
        answered = dump_one-Answered w.host mktrack code (w.record_of x) s.out;
        keeps = record { pstate = refl; user = refl; pdata = refl; crashed = refl };
      }

  pub cmd_filter-Handled : (code : Bytes) (s : Session g d) → Handled s (cmd_filter w code s)
  unfolding cmd_filter
  cmd_filter-Handled code s = answer (d.random_filter s.db).1
    where
      t : Session g d
      t = record s { db = (d.random_filter s.db).0 }

      answer :
          (o : Option Expr)
          → Handled s (elim o [
            | none ↦ say w code [] t
            | some x ↦ say w code (c_string (expr_fmt x w.array 0 1024).0.bytes) t
          ])
      answer none = asked-Handled w code [] s _
      answer (some x) = asked-Handled w code _ s _

  -- A handler that parses a filter first.
  filtered-Handled :
      (p : Parsed) (s : Session g d) (body : Expr → Session g d)
      → p ≢ gave_up
      → ((e : Expr) → Handled s (body e))
      → Handled s (elim p [ parsed e ↦ body e | failed m pos ↦ bad_filter w m pos s | gave_up ↦ s ])
  unfolding bad_filter
  filtered-Handled (parsed e) s body h k = k e
  filtered-Handled (failed m pos) s body h k =
      say-Handled w _ _ s s (record { pstate = refl; user = refl; pdata = refl; crashed = refl })
        refl
  filtered-Handled gave_up s body h k = absurd (h refl)

  pub cmd_tracksearchf-Handled :
      (filter code : Bytes) (s : Session g d) → Handled s (cmd_tracksearchf w filter code s)
  unfolding cmd_tracksearchf dump_tracks
  cmd_tracksearchf-Handled filter code s =
      filtered-Handled (expr_parse_str filter) s _ (expr_parse_str-ends filter)
        (λ e. reply_list-Handled w _ _ code s (dump_all-Answered w.host mktrack))

  pub cmd_filterset-Handled :
      (filter code : Bytes) (s : Session g d) → Handled s (cmd_filterset w filter code s)
  unfolding cmd_filterset
  cmd_filterset-Handled filter code s =
      filtered-Handled (expr_parse_str filter) s _ (expr_parse_str-ends filter)
        (λ e. reply_done-Handled w _ _ _ _ _ code s)

  pub cmd_sfiltersetfilter-Handled :
      (id : ℕ) (filter code : Bytes) (s : Session g d)
      → Handled s (cmd_sfiltersetfilter w id filter code s)
  unfolding cmd_sfiltersetfilter
  cmd_sfiltersetfilter-Handled id filter code s =
      filtered-Handled (expr_parse_str filter) s _ (expr_parse_str-ends filter)
        (λ e. reply_done-Handled w _ _ _ _ _ code s)

  pub cmd_help-Handled :
      {D : Type 0} (cmds : List (Cmd D)) (code : Bytes) (s : Session g d)
      → Handled s (cmd_help w cmds code s)
  unfolding cmd_help say proto_rlast
  cmd_help-Handled cmds code s = record {
    answered = elim (help_loop-Listed w.host code s.pstate (perm_of s.user) cmds s.out) [
      | inl f ↦ inl (proto_vline-failed w.host true code [] _ f)
      | inr (ls, e) ↦ Continued-last w.host code [] s.out _ ls e
    ];
    keeps = record { pstate = refl; user = refl; pdata = refl; crashed = refl };
  }
