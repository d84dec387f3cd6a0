-- ===== src/Storage/Files.antt =====
-- Whose files the operations of tec-storage-service/src/modules/storage/storage.service.ts touch.
use tec_core_backend.Base.{
  ℕ, Bool, true, false, Option, none, some, List, [], ◌∷◌, ◌==◌, ◌≡◌, arith,
}
use tec_core_backend.Base.Action.{Result, ok, err}
use tec_core_backend.Storage.{
  File, FileTable, Thrown, Env, UploadBody, FileBody, State, get_upload_url, save_file, get_file,
  delete_file,
}

pub data Request : Type 0 where
  upload_request : Env → UploadBody → Request
  save_request : Env → FileBody → Request
  get_request : Env → ℕ → Request
  delete_request : Env → ℕ → Request

-- The user of the token.
unfoldable pub asker : Request → Option ℕ
asker (upload_request env body) = env.token_user
asker (save_request env body) = env.token_user
asker (get_request env id) = env.token_user
asker (delete_request env id) = env.token_user

unfoldable pub is_asker : ℕ → Option ℕ → Bool
is_asker user none = false
is_asker user (some u) = user == u

module _ (T : FileTable) where
  open T use {Rows, find, create, delete, find-create, create_fresh, find-delete}

  unfoldable pub run_request : Request → State T → State T
  run_request (upload_request env body) s = (get_upload_url T env body s).1
  run_request (save_request env body) s = (save_file T env body s).1
  run_request (get_request env id) s = (get_file T env id s).1
  run_request (delete_request env id) s = (delete_file T env id s).1

  unfoldable pub run_requests : List Request → State T → State T
  run_requests [] s = s
  run_requests (q ∷ qs) s = run_requests qs (run_request q s)

  -- The file is one of the user, and its row and its object are gone.
  abbrev pub HasRemoved : ℕ → Option ℕ → State T → State T → Option File → Type 0
  HasRemoved id user s s' none = ⊥
  HasRemoved id user s s' (some f) =
      (is_asker f.user_id user ≡ true)
      × (s'.files ≡ delete id s.files)
      × (s'.removed ≡ f.key ∷ s.removed)

  -- As much, or every row is left; its object may still be gone, when the last call fails.
  abbrev pub IsDeleted : ℕ → Option ℕ → State T → Result Thrown (Unit {0}) × State T → Type 0
  IsDeleted id user s (ok a, s') = HasRemoved id user s s' (find id s.files)
  IsDeleted id user s (err e, s') = s'.files ≡ s.files

  -- A deletion that succeeds was asked by the user of the file and takes away its row and its
  -- object; one that throws takes away no row.
  pub delete_file_lem :
      (env : Env) (id : ℕ) (s : State T) → IsDeleted id env.token_user s (delete_file T env id s)
  unfolding delete_file is_asker
  delete_file_lem env id s = ground arith
