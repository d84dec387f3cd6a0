-- ===== src/Storage.antt =====
-- The storage service: tec-storage-service/src/modules/storage/storage.service.ts and the endpoints of
-- storage.controller.ts. Users are numbers, since they are only compared; so are the ids of files. The bucket
-- of Cloudflare R2 and its signatures are a parameter: its calls work or fail, and a list keeps what was
-- removed from it.
use Prim.Native.String.{◌++◌}
use text.Mathlib.Text.{find?}
use tec_core_backend.Base.{
  ℕ, ◌*◌, Bool, true, false, ◌&&◌, ◌||◌, not, Option, none, some, List, [], ◌∷◌, String, ◌==◌, ◌≡◌,
  ltb, is_some, if◌then◌else◌,
}
use tec_core_backend.Base.Action.{
  Result, ok, err, Action, ◌>>=◌, ◌>>◌, pure, or_throw, throw_if, modify, get,
}
use tec_core_backend.Base.Text.{◌===◌, starts_with, is_one_of}
pub mod Files
mod Examples

pub data FileType : Type 0 where
  image document video audio other : FileType

pub record File : Type 0 where
  pub user_id : ℕ
  pub key : String
  pub filename : String
  pub mime_type : String
  pub size : ℕ
  pub type : FileType

-- `s.includes(t)`
abbrev pub includes : String → String → Bool
includes s t = is_some (find? s t)

-- `getMimeFileType`
unfoldable pub get_mime_file_type : String → FileType
get_mime_file_type mime =
    if starts_with mime "image/"
    then image
    else if starts_with mime "video/"
    then video
    else if starts_with mime "audio/"
    then audio
    else if mime === "application/pdf" || includes mime "document" || includes mime "text/"
    then document
    else other

-- The table of the files: its calls with their laws. `create` gives a fresh id.
pub record FileTable : Type 1 where
  pub Rows : Type 0
  pub find : ℕ → Rows → Option File
  pub has_key : String → Rows → Bool
  pub create : File → Rows → ℕ × Rows
  pub delete : ℕ → Rows → Rows
  pub find-create :
      (j : ℕ) (f : File) (t : Rows)
      → find j (create f t).1 ≡ (if j == (create f t).0 then some f else find j t)
  pub create_fresh : (f : File) (t : Rows) → find (create f t).0 t ≡ none
  pub find-delete : (j k : ℕ) (t : Rows) → find j (delete k t) ≡ (if j == k then none else find j t)

pub data Site : Type 0 where
  at_sign at_create at_find at_remove at_delete : Site

pub data Thrown : Type 0 where
  unauthorized not_found too_large not_allowed : Thrown
  -- A failing call of the database or of R2, and a key that a row has.
  call_failed unique_violation : Thrown

-- What a request meets: the user of its token, none if it does not verify; the calls that fail; the
-- text of an id, and of a fresh one; `filename.split('.').pop()`.
pub record Env : Type 0 where
  pub token_user : Option ℕ
  pub has_fault : Site → Bool
  pub text_of : ℕ → String
  pub file_id : String
  pub extension : String → String

-- The body of `POST /storage/upload-url`. A `userId` in it stands over that of the token.
pub record UploadBody : Type 0 where
  pub user_id : Option ℕ
  pub filename : String
  pub mime_type : String
  pub size : ℕ
  pub folder : Option String

-- The body of `POST /storage/files`, the same way.
pub record FileBody : Type 0 where
  pub user_id : Option ℕ
  pub key : String
  pub filename : String
  pub mime_type : String
  pub size : ℕ

-- `MAX_SIZE` and `ALLOWED_TYPES`
abbrev pub max_size : ℕ
max_size = 10 * 1024 * 1024

abbrev pub allowed_types : List String
allowed_types =
    "image/jpeg" ∷ "image/png" ∷ "image/webp" ∷ "image/gif" ∷ "application/pdf" ∷ "video/mp4"
    ∷ "audio/mpeg" ∷ []

-- `{ userId, ...body }`
abbrev pub spread_user : ℕ → Option ℕ → ℕ
spread_user user none = user
spread_user user (some named) = named

abbrev pub folder_of : Option String → String
folder_of none = "uploads"
folder_of (some f) = f

abbrev pub new_file : ℕ → FileBody → File
new_file user body = record {
  user_id = user;
  key = body.key;
  filename = body.filename;
  mime_type = body.mime_type;
  size = body.size;
  type = get_mime_file_type body.mime_type;
}

-- `findFirst` by the id and the user.
abbrev pub owned_by : ℕ → Option File → Option File
owned_by user none = none
owned_by user (some f) = if f.user_id == user then some f else none

module _ (T : FileTable) where
  open T use {Rows, find, has_key, create, delete}

  -- The table, and the keys that were removed from the bucket.
  pub record State : Type 0 where
    pub files : Rows
    pub removed : List String

  abbrev pub Act : Type 0 → Type 0
  Act A = Action State Thrown A

  abbrev pub attempt : Env → Site → Act (Unit {0})
  attempt env site = throw_if (env.has_fault site) call_failed

  -- `getUploadUrl`: the key that the URL is for.
  unfoldable pub get_upload_url : Env → UploadBody → Act String
  get_upload_url env body = do
    user ← or_throw env.token_user unauthorized
    throw_if (ltb max_size body.size) too_large
    throw_if (not (is_one_of body.mime_type allowed_types)) not_allowed
    attempt env at_sign
    pure (
        folder_of body.folder
        ++ ("/"
            ++ (env.text_of (spread_user user body.user_id)
                ++ ("/" ++ (env.file_id ++ ("." ++ env.extension body.filename))))))

  -- `saveFile`
  unfoldable pub save_file : Env → FileBody → Act (ℕ × File)
  save_file env body = do
    user ← or_throw env.token_user unauthorized
    attempt env at_create
    s ← get
    throw_if (has_key body.key s.files) unique_violation
    let f = new_file (spread_user user body.user_id) body
    let (id, files) = create f s.files
    modify (λ (t : State). record t { files = files })
    pure (id, f)

  -- `getFile`: the file, whose key the URL is for.
  unfoldable pub get_file : Env → ℕ → Act File
  get_file env id = do
    user ← or_throw env.token_user unauthorized
    attempt env at_find
    s ← get
    f ← or_throw (owned_by user (find id s.files)) not_found
    attempt env at_sign
    pure f

  -- `deleteFile`
  unfoldable pub delete_file : Env → ℕ → Act (Unit {0})
  delete_file env id = do
    user ← or_throw env.token_user unauthorized
    attempt env at_find
    s ← get
    f ← or_throw (owned_by user (find id s.files)) not_found
    attempt env at_remove
    modify (λ (t : State). record t { removed = f.key ∷ t.removed })
    attempt env at_delete
    modify (λ (t : State). record t { files = delete id t.files })
