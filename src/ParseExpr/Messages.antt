-- ===== src/ParseExpr/Messages.antt =====
-- commondb/parseexpr.c: the texts of the parser's messages.
use dudld.Common.{Bytes, ◌∷◌, ◌++◌, Option, none, some, codes}
use dudld.ParseExpr.Syntax.{
  Message, eof_escaped, missing_termination, expecting_value, invalid_value, missing_value,
  eof_operator, expecting_field, unknown_field, invalid_value_operator, no_value, invalid_match,
  expecting_expression, missing_close, unexpected_close, invalid_operator, expecting_another, junk,
}
use dudld.ParseExpr.Tables.{valfield_name, valop_name, type_code}
use dudld.ParseExpr.Text.{print_int}

unfoldable pub message_text : Message → Bytes
message_text eof_escaped = codes "EOF while expecting escaped char"
message_text missing_termination = codes "missing string termination"
message_text expecting_value = codes "expecting a value"
message_text invalid_value = codes "invalid value"
message_text missing_value = codes "missing value"
message_text eof_operator = codes "EOF instead of value operator"
message_text expecting_field = codes "expecting a field name"
message_text unknown_field = codes "unknown field"
message_text invalid_value_operator = codes "invalid value operator"
message_text no_value = codes "no value specified"
message_text (invalid_match f o t) =
    codes "invalid match on "
    ++ (valfield_name f ++ (b' ' ∷ (valop_name o ++ (b' ' ∷ print_int (type_code t)))))
message_text expecting_expression = codes "expecting an expression"
message_text missing_close = codes "missing close brace"
message_text unexpected_close = codes "unexpected close brace"
message_text invalid_operator = codes "invalid operator"
message_text expecting_another = codes "expecting another expression for &|"
message_text junk = codes "junk at end"

-- "%s" of the message, which is NULL where there is none.
unfoldable pub shown_message : Option Message → Bytes
unfolding message_text
shown_message none = codes "(null)"
shown_message (some m) = message_text m
