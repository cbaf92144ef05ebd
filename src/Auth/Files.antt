-- ===== src/Auth/Files.antt =====
-- internal/auth/file_token_storage.go: a token in a file, under a lock.
use lstk.Text.Search.{trim_space}
use lstk.Auth.{storage_failed, TokenStorage, IsStorage, token_not_found, StorageError}
use lstk.Prelude.{◌≡◌, Bool, Option, none, some, arith, nat_eq, if◌then◌else◌, Result, ok, err}
use lstk.Text.Basic.{Text, text_eq}

-- The contents of the file, if it exists, and whether the file system lets the lock be taken and
-- the file be read and written.
pub record TokenFile : Type 0 where
  pub content : Option Text
  pub usable : Bool

abbrev pub read_content : Option Text → Result StorageError Text
read_content none = err token_not_found
read_content (some data') = ok (trim_space data')

abbrev pub file_get : TokenFile → Result StorageError Text
file_get f = if f.usable then read_content f.content else err storage_failed

abbrev pub file_set : TokenFile → Text → Result StorageError (Unit {0}) × TokenFile
file_set f token =
    if f.usable
    then (ok tt, record { content = some token; usable = f.usable })
    else (err storage_failed, f)

abbrev pub file_delete : TokenFile → Result StorageError (Unit {0}) × TokenFile
file_delete f =
    if f.usable
    then (ok tt, record { content = none; usable = f.usable })
    else (err storage_failed, f)

abbrev pub file_storage : TokenStorage TokenFile
file_storage = record {
  get_auth_token = file_get;
  set_auth_token = file_set;
  delete_auth_token = file_delete;
}

get-set_file :
    (f : TokenFile) (token : Text)
    → trim_space token ≡ token
    → (file_set f token).0 ≡ ok tt
    → file_get (file_set f token).1 ≡ ok token
get-set_file f token t h = ground (arith, t)

get-delete_file :
    (f : TokenFile) → (file_delete f).0 ≡ ok tt → file_get (file_delete f).1 ≡ err token_not_found
get-delete_file f h = ground arith

-- The file reads back a token that was stored in it, if it has no white space around it, and none
-- after a deletion that succeeded.
pub file_storage-IsStorage : IsStorage file_storage
file_storage-IsStorage = record { get-set = get-set_file; get-delete = get-delete_file }
