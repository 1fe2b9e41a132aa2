-- ===== src/Backend/Mysql.antt =====
-- common/deal_mysql.c: connections, and the result of a query of one row and one field.
use hydra_fs.Prelude.{Bool, true, false, Option, none, some, String, [], ◌∷◌, if◌then◌else◌}
use hydra_fs.Prelude.Int.{ℤ, pos, negsuc}
use hydra_fs.Backend.{
  Sql, set_names_utf8, Cell, number, chars, Row, Reply, failed, no_result, rows, affected, System,
  Out, go, stop, crash, Exec, ◌>>=◌, pure, goto_end, call,
}

abbrev pub first_column : Row → Cell → Cell
first_column [] buf = buf
first_column (none ∷ row) buf = buf
first_column (some c ∷ row) buf = c

-- The return value and the buffer after the query; `none` for the buffer is a NULL `buf`.
unfoldable pub store_one : Reply → Option Cell → ℤ × Option Cell
store_one failed buf = (negsuc 0, buf)
store_one no_result buf = (negsuc 0, buf)
store_one (affected n) buf = (negsuc 0, buf)
store_one (rows []) none = (pos 1, none)
store_one (rows []) (some b) = (pos 1, some (chars "0"))
store_one (rows (row ∷ rest)) none = (pos 2, none)
store_one (rows (row ∷ rest)) (some b) = (pos 0, some (first_column row b))

-- A column of characters; a number does not arrive in one.
abbrev pub text_of : Cell → String
text_of (chars s) = s
text_of (number n) = ""

abbrev pub buffer : Option Cell → Cell
buffer none = chars ""
buffer (some c) = c

unfoldable pub is_ok : Reply → Bool
is_ok failed = false
is_ok no_result = true
is_ok (rows r) = true
is_ok (affected n) = true

module _ {W : Type 0} (sys : System W) where
  -- A handle, or NULL where `mysql_init` or `mysql_real_connect` fails.
  unfoldable pub msql_conn : W → Bool × W
  msql_conn w =
      let (made, w1) = sys.mysql_init w in
      let (connected, w2) = sys.mysql_real_connect w1 in
      if made then (connected, w2) else (false, w1)

  unfoldable pub process_result_one : Sql → Option Cell → W → (ℤ × Option Cell) × W
  process_result_one sql_cmd buf w =
      let (reply, w') = sys.mysql_query sql_cmd w in (store_one reply buf, w')

  -- `ret2 = process_result_one(conn, sql_cmd, tmp)` with a buffer, and with a NULL buffer.
  unfoldable pub select_one : Sql → Cell → Exec W (ℤ × Cell)
  select_one sql_cmd tmp = do
    result ← call (process_result_one sql_cmd (some tmp))
    pure (result.0, buffer result.1)

  unfoldable pub select_exists : Sql → Exec W ℤ
  select_exists sql_cmd = do result ← call (process_result_one sql_cmd none); pure result.0

  -- `if (mysql_query(conn, sql_cmd) != 0) { ret = -1; goto END; }`
  unfoldable pub execute : Sql → Exec W Reply
  execute sql_cmd = do
    reply ← call (sys.mysql_query sql_cmd)
    if is_ok reply then pure reply else goto_end (negsuc 0)

  -- The steps of a request between `msql_conn` and END, after `set names utf8`, whose result is not
  -- read. At END a connection is closed; that of a process that dies is ended by the server.
  unfoldable pub with_database : {A : Type 0} → Exec W A → W → Out A × W
  with_database steps w =
      let (connected, w1) = msql_conn w in
      let (names, w2) = sys.mysql_query set_names_utf8 w1 in
      let (out, w3) = steps w2 in
      if connected then (out, sys.mysql_close w3) else (stop (negsuc 0), w1)

-- The return value at END; `none` for a process that has died.
abbrev pub return_value : {A : Type 0} → Out A → Option ℤ
return_value (go _) = some (pos 0)
return_value (stop ret) = some ret
return_value crash = none
