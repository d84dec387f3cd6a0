-- ===== src/Storage/Examples.antt =====
-- Tests of the storage service on a table that is a list, and the theorem at those inputs.
use tec_core_backend.Base.{
  ℕ, false, none, some, List, [], ◌∷◌, ◌==◌, ◌≡◌, refl, is_some, if◌then◌else◌, arith,
}
use tec_core_backend.Base.Action.{ok, err}
use tec_core_backend.Base.Table.{Table}
use tec_core_backend.Base.Table.Rows.{rows}
use tec_core_backend.Base.Text.{◌===◌, starts_with, is_one_of}
use tec_core_backend.Storage.{
  File, FileTable, document, Env, FileBody, State, not_found, not_allowed, get_mime_file_type,
  get_upload_url, save_file, get_file,
}
use tec_core_backend.Storage.Files.{Request, save_request, get_request, delete_request}

abbrev file_rows : Table File
file_rows = rows

unfoldable take_out : ℕ → List (ℕ × File) → List (ℕ × File)
take_out k [] = []
take_out k ((j, f) ∷ t) = let rest = take_out k t in if k == j then rest else (j, f) ∷ rest

find-take_out :
    (j k : ℕ) (t : List (ℕ × File))
    → Table.find file_rows j (take_out k t) ≡ (if j == k then none else Table.find file_rows j t)
unfolding take_out
find-take_out j k [] = ground arith
find-take_out j k ((i, f) ∷ t) = ground (arith, find-take_out j k t)

abbrev table : FileTable
table = record {
  Rows = List (ℕ × File);
  find = λ id t. Table.find file_rows id t;
  has_key = λ k t. is_some (Table.find_first file_rows (λ (f : File). f.key === k) t);
  create = λ f t. Table.create file_rows f t;
  delete = take_out;
  find-create = λ j f t. Table.find-create file_rows j f t;
  create_fresh = λ f t. Table.create_fresh file_rows f t;
  find-delete = find-take_out;
}

abbrev env : ℕ → Env
env user = record {
  token_user = some user;
  has_fault = λ x. false;
  text_of = λ u. "u";
  file_id = "f1";
  extension = λ name. "png";
}

abbrev picture : FileBody
picture = record {
  user_id = none;
  key = "uploads/u/f1.png";
  filename = "a.png";
  mime_type = "image/png";
  size = 900;
}

abbrev empty : State table
empty = record { files = []; removed = [] }

-- Alice is the user 1, and names the user 2 in her body: the file is the one of the user 2.
abbrev forged : State table
forged = (save_file table (env 1) (record picture { user_id = some 2 }) empty).1

saved_for_another : (get_file table (env 1) 0 forged).0 ≡ err not_found
unfolding save_file get_file get_mime_file_type starts_with
saved_for_another = refl

-- Neither the size nor the type of a file is looked at when it is saved.
unchecked :
    (save_file table (env 1) (record picture { mime_type = "text/html"; size = 99999999 }) empty).0
    ≡ ok (
      0,
      (record {
        user_id = 1;
        key = "uploads/u/f1.png";
        filename = "a.png";
        mime_type = "text/html";
        size = 99999999;
        type = document;
      }),
    )
unfolding save_file get_mime_file_type starts_with
unchecked = refl

upload_refused :
    (get_upload_url table
      (env 1)
      (record {
        user_id = none;
        filename = "a.html";
        mime_type = "text/html";
        size = 5;
        folder = none;
      })
      empty).0
    ≡ err not_allowed
unfolding get_upload_url is_one_of
upload_refused = refl

abbrev hers : State table
hers = (save_file table (env 1) picture empty).1

abbrev others : List Request
others = delete_request (env 2) 0 ∷ save_request (env 2) picture ∷ get_request (env 3) 0 ∷ []
