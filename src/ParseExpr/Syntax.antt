-- ===== src/ParseExpr/Syntax.antt =====
-- commondb/parseexpr.h: the expressions of the filter language, and the messages of the parser.
use dudld.Common.{ℕ, Bytes}

pub data ValType : Type 0 where
  vt_none vt_num vt_string vt_list : ValType

-- `Values` is the NULL-terminated array of a list. An `int` is held as its 32-bit pattern.
mutual
  pub data Value : Type 0 where
    num : ℕ → Value
    string : Bytes → Value
    list : Values → Value

  pub data Values : Type 0 where
    nil : Values
    cons : Value → Values → Values

unfoldable pub type_of : Value → ValType
type_of (num n) = ValType.vt_num
type_of (string s) = ValType.vt_string
type_of (list vs) = ValType.vt_list

pub data ValOp : Type 0 where
  vo_none vo_eq vo_lt vo_le vo_gt vo_ge vo_in vo_re : ValOp

pub data ValField : Type 0 where
  vf_none vf_dur vf_lplay vf_tag vf_artist vf_title vf_album vf_year vf_pos : ValField

pub record ValTest : Type 0 where
  pub field : ValField
  pub op : ValOp
  pub val : Value

-- The four kinds of node that the parser makes; the reference count is left out.
pub data Expr : Type 0 where
  op_self : ValTest → Expr
  op_not : Expr → Expr
  op_and op_or : Expr → Expr → Expr

-- What parse_operator returns.
pub data Operator : Type 0 where
  none_op and_op or_op : Operator

-- One constructor for each text that is handed to parse_error.
pub data Message : Type 0 where
  eof_escaped missing_termination expecting_value invalid_value missing_value : Message
  eof_operator expecting_field unknown_field invalid_value_operator no_value : Message
  invalid_match : ValField → ValOp → ValType → Message
  expecting_expression missing_close unexpected_close invalid_operator expecting_another : Message
  junk : Message
