-- ===== src/Knowledge.antt =====
-- `enqueue_knowledge_task` and `enqueue_parse_task` of common/knowledge_task.c: one task under a
-- named lock. The connection and the strings are not NULL, which the callers see to.
pub mod Tasks
use package.text.Mathlib.Text.{◌==◌ as str_eq}
use hydra_fs.Prelude.{Bool, true, false, Option, none, some, String, [], ◌∷◌, if◌then◌else◌}
use hydra_fs.Prelude.Int.{ℤ, pos, negsuc, eq_ℤ, positive}
use hydra_fs.Backend.{
  get_lock, release_lock, count_active_tasks, insert_task, Reply, failed, no_result, rows, affected,
  System, atoi,
}
use hydra_fs.Backend.Mysql.{is_ok}

unfoldable pub normalized_type : String → String
normalized_type t = if str_eq t "parse_file" then "parse_source" else t

-- `row && row[0] && atoi(row[0]) == 1`
unfoldable pub is_locked : Reply → Bool
is_locked (rows ((some c ∷ row) ∷ rest)) = eq_ℤ (atoi c) (pos 1)
is_locked _ = false

-- `row && row[0] && atoi(row[0]) > 0`
unfoldable pub is_duplicate : Reply → Bool
is_duplicate (rows ((some c ∷ row) ∷ rest)) = positive (atoi c)
is_duplicate _ = false

module _ {W : Type 0} (sys : System W) where
  -- From the answer of the count to the label RELEASE_FAIL or the second release.
  unfoldable pub insert_unless_duplicate : (user md5 task_type source : String) → Reply → W → ℤ × W
  insert_unless_duplicate user md5 task_type source failed w = (negsuc 0, w)
  insert_unless_duplicate user md5 task_type source no_result w = (negsuc 0, w)
  insert_unless_duplicate user md5 task_type source (affected n) w = (negsuc 0, w)
  insert_unless_duplicate user md5 task_type source (rows r) w =
      if is_duplicate (rows r)
      then (pos 0, w)
      else (let (reply, w') = sys.mysql_query (insert_task user md5 task_type source) w in
          (if is_ok reply then pos 0 else negsuc 0, w'))

  unfoldable pub under_lock : (user md5 task_type source : String) → W → ℤ × W
  under_lock user md5 task_type source w =
      let (found, w1) = sys.mysql_query (count_active_tasks user md5 task_type) w in
      let (ret, w2) = insert_unless_duplicate user md5 task_type source found w1 in
      let (released, w3) = sys.mysql_query (release_lock user md5 task_type) w2 in (ret, w3)

  unfoldable pub enqueue_knowledge_task : (user md5 task_type source : String) → W → ℤ × W
  enqueue_knowledge_task user md5 task_type source w =
      if str_eq task_type ""
      then (negsuc 0, w)
      else (let kind = normalized_type task_type in
          let (reply, w1) = sys.mysql_query (get_lock user md5 kind) w in
          if is_locked reply then under_lock user md5 kind source w1 else (negsuc 0, w1))

  -- The type argument of the source is not used.
  unfoldable pub enqueue_parse_task : (user md5 source : String) → W → ℤ × W
  enqueue_parse_task user md5 source = enqueue_knowledge_task user md5 "parse_source" source
