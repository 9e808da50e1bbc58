-- ===== src/Format/Records.antt =====
-- proto_fmt.c: the line of fields of each kind of record. Of a record only the fields that are sent are kept,
-- and the password of a user. An `int` is held as its 32-bit pattern, a pointer that may be NULL as an Option.
-- Each function takes the static buffer as it was left before, and returns it as it leaves it.
use dudld.Common.{ℕ, Bytes, [], ◌∷◌, ◌++◌, Option, none, some, codes}
use dudld.Common.Memory.{Memory}
use dudld.ParseExpr.Text.{digits}
use dudld.Format.Table.{str, text, int, mktab}

pub record User : Type 0 where
  pub id : ℕ
  pub name : Bytes
  pub right : ℕ
  pub pass : Bytes

-- The address of a client is held as its four bytes.
pub record Peer : Type 0 where
  pub id : ℕ
  pub sin_addr : ℕ × ℕ × ℕ × ℕ
  pub user : Option User

pub record Tag : Type 0 where
  pub id : ℕ
  pub name : Bytes
  pub desc : Bytes

pub record Artist : Type 0 where
  pub id : ℕ
  pub artist : Bytes

pub record Album : Type 0 where
  pub id : ℕ
  pub album : Bytes
  pub year : ℕ
  pub artist : Artist

pub record Track : Type 0 where
  pub id : ℕ
  pub albumnr : ℕ
  pub title : Bytes
  pub duration : ℕ
  pub artist : Artist
  pub album : Album

pub record History : Type 0 where
  pub played : ℕ
  pub user : Option User
  pub track : Track

pub record Queue : Type 0 where
  pub id : ℕ
  pub queued : ℕ
  pub user : Option User
  pub track : Track

pub record Sfilter : Type 0 where
  pub id : ℕ
  pub name : Bytes
  pub filter : Bytes

-- inet_ntoa
unfoldable pub inet_ntoa : ℕ × ℕ × ℕ × ℕ → Bytes
inet_ntoa (a, b, c, d) =
    digits 2 a ++ (b'.' ∷ (digits 2 b ++ (b'.' ∷ (digits 2 c ++ (b'.' ∷ digits 2 d)))))

module _ (strdup : Bytes → Option Bytes) where
  unfoldable pub mkuser : Memory → Option User → Memory × Option Bytes
  mkuser buf none = mktab strdup buf (int 0 ∷ str (codes "UNKNOWN") ∷ int 0 ∷ [])
  mkuser buf (some u) = mktab strdup buf (int u.id ∷ str u.name ∷ int u.right ∷ [])

  unfoldable pub mkclient : Memory → Peer → Memory × Option Bytes
  mkclient buf c =
      let (m, sub) = mkuser buf c.user in
      elim sub [
        | none ↦ (m, none)
        | some s ↦ mktab strdup m (int c.id ∷ str (inet_ntoa c.sin_addr) ∷ text s ∷ [])
      ]

  unfoldable pub mktag : Memory → Tag → Memory × Option Bytes
  mktag buf t = mktab strdup buf (int t.id ∷ str t.name ∷ str t.desc ∷ [])

  unfoldable pub mkartist : Memory → Artist → Memory × Option Bytes
  mkartist buf a = mktab strdup buf (int a.id ∷ str a.artist ∷ [])

  unfoldable pub mkalbum : Memory → Album → Memory × Option Bytes
  mkalbum buf a =
      let (m, sub) = mkartist buf a.artist in
      elim sub [
        | none ↦ (m, none)
        | some s ↦ mktab strdup m (int a.id ∷ str a.album ∷ int a.year ∷ text s ∷ [])
      ]

  unfoldable pub mktrack : Memory → Track → Memory × Option Bytes
  mktrack buf t =
      let (m1, sub1) = mkartist buf t.artist in
      let (m2, sub2) = mkalbum m1 t.album in
      elim sub1 [
        | none ↦ (m1, none)
        | some s1 ↦ elim sub2 [
          | none ↦ (m2, none)
          | some s2 ↦
              mktab strdup m2
                (int t.id ∷ int t.albumnr ∷ str t.title ∷ int t.duration ∷ text s1 ∷ text s2 ∷ [])
        ]
      ]

  unfoldable pub mkhistory : Memory → History → Memory × Option Bytes
  mkhistory buf h =
      let (m1, sub1) = mkuser buf h.user in
      let (m2, sub2) = mktrack m1 h.track in
      elim sub1 [
        | none ↦ (m1, none)
        | some s1 ↦ elim sub2 [
          | none ↦ (m2, none)
          | some s2 ↦ mktab strdup m2 (int h.played ∷ text s1 ∷ text s2 ∷ [])
        ]
      ]

  unfoldable pub mkqueue : Memory → Queue → Memory × Option Bytes
  mkqueue buf q =
      let (m1, sub1) = mkuser buf q.user in
      let (m2, sub2) = mktrack m1 q.track in
      elim sub1 [
        | none ↦ (m1, none)
        | some s1 ↦ elim sub2 [
          | none ↦ (m2, none)
          | some s2 ↦ mktab strdup m2 (int q.id ∷ int q.queued ∷ text s1 ∷ text s2 ∷ [])
        ]
      ]

  unfoldable pub mksfilter : Memory → Sfilter → Memory × Option Bytes
  mksfilter buf t = mktab strdup buf (int t.id ∷ str t.name ∷ str t.filter ∷ [])
