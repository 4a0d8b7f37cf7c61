-- ===== src/Sqlite/Operations.antt =====
-- The operations of the Store interface (internal/store/store.go) as data, run by the SQLite store,
-- and the relations that they keep.
use tabby_sync.Common.{ℤ, Option, none, some, List, [], ◌∷◌}
use tabby_sync.Store.{Time, CreateConfigInput, UpdateConfigPatch, Result}
use tabby_sync.Sqlite.Driver.{Env, Db}
use tabby_sync.Sqlite.{
  next_modified_at, get_config, create_config, create_in_tx, create_config_with_id,
  list_configs_by_user, update_stamp, write_patch, update_in_tx, update_config, delete_config,
  count_configs_by_user, create_reserved,
}
use tabby_sync.Sqlite.Frames.{Frame, IsFrame, Writes, frame_rules}

module _ {R : Db → Db → Type 0} {user_id : ℤ} (env : Env) (w : Writes R user_id) where
  next_modified_at-Frame : (old : Time) → Frame R (next_modified_at env old)
  unfolding next_modified_at
  next_modified_at-Frame old = search (frame_rules, w.is_frame)

  pub get_config-Frame : (id : ℤ) → Frame R (get_config env user_id id)
  unfolding get_config
  get_config-Frame id = search (frame_rules, w.is_frame)

  pub list_configs_by_user-Frame : Frame R (list_configs_by_user env user_id)
  unfolding list_configs_by_user
  list_configs_by_user-Frame = search (frame_rules, w.is_frame)

  pub count_configs_by_user-Frame : Frame R (count_configs_by_user env user_id)
  unfolding count_configs_by_user
  count_configs_by_user-Frame = search (frame_rules, w.is_frame)

  pub delete_config-Frame : (id : ℤ) → Frame R (delete_config env user_id id)
  unfolding delete_config
  delete_config-Frame id = search (frame_rules, w.is_frame, w.delete)

  pub create_config-Frame : (i : CreateConfigInput) → Frame R (create_config env user_id i)
  unfolding create_config
  create_config-Frame i = search (frame_rules, w.is_frame, w.insert, get_config-Frame) depth 14

  create_reserved-Frame :
      (build : ℤ → Result CreateConfigInput) (t : Time) (id : ℤ)
      → Frame R (create_reserved env user_id build t id)
  unfolding create_reserved
  create_reserved-Frame build t id =
      search (frame_rules, w.is_frame, w.finalise, next_modified_at-Frame) depth 28

  create_in_tx-Frame :
      (build : ℤ → Result CreateConfigInput) → Frame R (create_in_tx env user_id build)
  unfolding create_in_tx
  create_in_tx-Frame build =
      search (frame_rules, w.is_frame, w.insert, create_reserved-Frame) depth 12

  pub create_config_with_id-Frame :
      (build : Option (ℤ → Result CreateConfigInput))
      → Frame R (create_config_with_id env user_id build)
  unfolding create_config_with_id
  create_config_with_id-Frame none = search (frame_rules, w.is_frame)
  create_config_with_id-Frame (some build) = search (frame_rules, w.is_frame, create_in_tx-Frame)

  update_stamp-Frame : (p : UpdateConfigPatch) (old : Time) → Frame R (update_stamp env p old)
  unfolding update_stamp
  update_stamp-Frame p old = search (frame_rules, w.is_frame, next_modified_at-Frame)

  write_patch-Frame :
      (id : ℤ) (p : UpdateConfigPatch) (m : _) → Frame R (write_patch env user_id id p m)
  unfolding write_patch
  write_patch-Frame id p m = search (frame_rules, w.is_frame, w.patch)

  update_in_tx-Frame : (id : ℤ) (p : UpdateConfigPatch) → Frame R (update_in_tx env user_id id p)
  unfolding update_in_tx
  update_in_tx-Frame id p =
      search (frame_rules, w.is_frame, update_stamp-Frame, write_patch-Frame) depth 16

  pub update_config-Frame :
      (id : ℤ) (p : UpdateConfigPatch) → Frame R (update_config env user_id id p)
  unfolding update_config
  update_config-Frame id p =
      search (frame_rules, w.is_frame, update_in_tx-Frame, get_config-Frame) depth 10

-- The methods of store.Store, with their arguments behind userID.
pub data Op : Type 0 where
  create : CreateConfigInput → Op
  create_with_id : Option (ℤ → Result CreateConfigInput) → Op
  get : ℤ → Op
  list : Op
  update : ℤ → UpdateConfigPatch → Op
  delete : ℤ → Op
  count : Op

-- The state that an operation leaves, whether it succeeds or not.
unfoldable pub run : Env → ℤ → Op → Db → Db
run env u (create i) db = (create_config env u i db).1
run env u (create_with_id build) db = (create_config_with_id env u build db).1
run env u (get id) db = (get_config env u id db).1
run env u list db = (list_configs_by_user env u db).1
run env u (update id p) db = (update_config env u id p db).1
run env u (delete id) db = (delete_config env u id db).1
run env u count db = (count_configs_by_user env u db).1

-- Any sequence of operations of any users.
unfoldable pub run_all : Env → List (ℤ × Op) → Db → Db
run_all env [] db = db
run_all env ((u, op) ∷ ops) db = run_all env ops (run env u op db)

pub run-Writes :
    {R : Db → Db → Type 0} {u : ℤ} (env : Env)
    → Writes R u
    → (op : Op) (db : Db) → R db (run env u op db)
unfolding run
run-Writes env w (create i) db = (create_config-Frame env w i).at db
run-Writes env w (create_with_id build) db = (create_config_with_id-Frame env w build).at db
run-Writes env w (get id) db = (get_config-Frame env w id).at db
run-Writes env w list db = (list_configs_by_user-Frame env w).at db
run-Writes env w (update id p) db = (update_config-Frame env w id p).at db
run-Writes env w (delete id) db = (delete_config-Frame env w id).at db
run-Writes env w count db = (count_configs_by_user-Frame env w).at db

-- A relation that every user's writes keep holds along every sequence of operations.
pub run_all-Writes :
    {R : Db → Db → Type 0} (env : Env)
    → IsFrame R
    → ((u : ℤ) → Writes R u)
    → (ops : List (ℤ × Op)) (db : Db) → R db (run_all env ops db)
unfolding run_all
run_all-Writes env f w [] db = f.calls db db.calls
run_all-Writes env f w ((u, op) ∷ ops) db =
    f.trans db (run env u op db) _ (run-Writes env (w u) op db)
      (run_all-Writes env f w ops (run env u op db))
