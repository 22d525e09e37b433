-- ===== src/Mongo.antt =====
-- internal/adapter/repo/mongo: the account repository over the MongoDB driver, and its documents.
-- The collection is a parameter, bound to the session of the context, with one operation for each
-- call of the driver; `Cursor` is what Find returns. Errors of closing a cursor are dropped.
pub mod Contract
pub mod Refines
use go_clean_arch_template.Prelude.{
  ℕ, String, Bool, true, false, Option, none, some, List, [], ◌∷◌, ◌++◌, map, nat_eq, if◌then◌else◌,
}
use go_clean_arch_template.Prelude.Int.{ℤ, pos, negsuc, is_positive}
use go_clean_arch_template.Apperr.{Error, app, sentinel, with_cause, is_error}
use go_clean_arch_template.Apperr.Catalog.{
  err_internal, err_account_not_found, err_account_already_exists,
}
use go_clean_arch_template.Effect.{Result, ok, err, M, pure, fail, map_err, ◌>>=◌, ◌>>◌}
use go_clean_arch_template.Domain.{Account, AccountStatus, UpdateAccountParams, ListAccountFilter}
use go_clean_arch_template.Ports.{AccountRepository}

-- accountDoc
pub record AccountDoc : Type 0 where
  pub id : String
  pub email : String
  pub first_name : String
  pub last_name : String
  pub password_hash : String
  pub status : ℤ
  pub created_at : ℕ
  pub updated_at : ℕ
  pub deleted_at : Option ℕ

-- toDoc
unfoldable pub to_doc : Account → AccountDoc
to_doc a = record {
  id = a.id;
  email = a.email;
  first_name = a.first_name;
  last_name = a.last_name;
  password_hash = a.password_hash;
  status = a.status;
  created_at = a.created_at;
  updated_at = a.updated_at;
  deleted_at = a.deleted_at;
}

-- accountDoc.toDomain
unfoldable pub to_domain : AccountDoc → Account
to_domain d = record {
  id = d.id;
  email = d.email;
  first_name = d.first_name;
  last_name = d.last_name;
  password_hash = d.password_hash;
  status = d.status;
  created_at = d.created_at;
  updated_at = d.updated_at;
  deleted_at = d.deleted_at;
}

-- a value of a bson.M
pub data Value : Type 0 where
  text_value : String → Value
  int_value : ℤ → Value
  time_value : ℕ → Value

abbrev pub Document : Type 0
Document = List (String × Value)

-- the options of Find, as they are set
pub record FindOptions : Type 0 where
  pub sort : List (String × ℤ)
  pub limit : Option ℤ
  pub skip : Option ℤ

-- mongo.IndexModel
pub record IndexModel : Type 0 where
  pub keys : List (String × ℤ)
  pub unique : Bool
  pub name : String

-- *mongo.Collection, and mongo.IsDuplicateKeyError
pub record Collection (S Cursor : Type 0) : Type 0 where
  pub insert_one : AccountDoc → M S (Unit {0})
  -- FindOne and Decode
  pub find_one : (filter : Document) → M S AccountDoc
  -- UpdateOne with {"$set": set}; the result is MatchedCount
  pub update_one : (filter set : Document) → M S ℕ
  -- the result is DeletedCount
  pub delete_one : (filter : Document) → M S ℕ
  pub count_documents : (filter : Document) → M S ℕ
  pub find : (filter : Document) → FindOptions → M S Cursor
  -- cur.All
  pub all : Cursor → M S (List AccountDoc)
  -- the deferred cur.Close
  pub close : Cursor → S → S
  pub create_indexes : List IndexModel → M S (Unit {0})
  pub is_duplicate_key_error : Error → Bool

-- mongo.ErrNoDocuments
abbrev pub err_no_documents : Error
err_no_documents = sentinel "mongo: no documents in result"

abbrev pub internal_error : Error → Error
internal_error e = app (with_cause err_internal e)

-- the errors of findOne
abbrev pub read_error : Error → Error
read_error e =
    if is_error e err_no_documents
    then app (with_cause err_account_not_found e)
    else app (with_cause err_internal e)

-- bson.M{"_id": id} and bson.M{"email": email}
abbrev pub by_id : String → Document
by_id id = ("_id", text_value id) ∷ []

abbrev pub by_email : String → Document
by_email email = ("email", text_value email) ∷ []

-- `if p != nil { set[name] = *p }`
abbrev pub set_field {ℓ} : {A : Type ℓ} → String → (A → Value) → Option A → Document
set_field name value none = []
set_field name value (some a) = (name, value a) ∷ []

-- the document of $set in Update
unfoldable pub set_document : UpdateAccountParams → Document
set_document p =
    ("updated_at", time_value p.updated_at)
    ∷ (set_field "first_name" text_value p.first_name
        ++ (set_field "last_name" text_value p.last_name ++ set_field "status" int_value p.status))

-- the filter of List
abbrev pub status_filter : Option AccountStatus → Document
status_filter = set_field "status" int_value

-- `if res.MatchedCount == 0`, and the same of DeletedCount
abbrev pub matched : {S : Type 0} → ℕ → M S (Unit {0})
matched n = if nat_eq n 0 then fail (app err_account_not_found) else pure tt

-- `if n > 0`
abbrev pub when_positive : ℤ → Option ℤ
when_positive n = if is_positive n then some n else none

-- the options of List: the newest first
unfoldable pub find_options : ListAccountFilter → FindOptions
find_options f = record {
  sort = ("created_at", negsuc 0) ∷ [];
  limit = when_positive f.limit;
  skip = when_positive f.offset;
}

-- the indexes of EnsureIndexes
abbrev pub index_models : List IndexModel
index_models =
    record { keys = ("email", pos 1) ∷ []; unique = true; name = "uniq_email" }
    ∷ record { keys = ("status", pos 1) ∷ []; unique = false; name = "idx_status" }
    ∷ []

module _ {S Cursor : Type 0} (coll : Collection S Cursor) where
  -- the errors of Create
  abbrev pub write_error : Error → Error
  write_error e =
      if coll.is_duplicate_key_error e
      then app (with_cause err_account_already_exists e)
      else app (with_cause err_internal e)

  unfoldable pub create : Account → M S String
  unfolding to_doc with_cause
  create e = do map_err write_error (coll.insert_one (to_doc e)); pure (to_doc e).id

  unfoldable pub find_one : (filter : Document) → M S Account
  unfolding to_domain with_cause
  find_one filter = do doc ← map_err read_error (coll.find_one filter); pure (to_domain doc)

  unfoldable pub get_by_id : String → M S Account
  unfolding find_one
  get_by_id id = find_one (by_id id)

  unfoldable pub get_by_email : String → M S Account
  unfolding find_one
  get_by_email email = find_one (by_email email)

  unfoldable pub update : UpdateAccountParams → M S (Unit {0})
  unfolding set_document with_cause
  update p = do
    n ← map_err internal_error (coll.update_one (by_id p.id) (set_document p))
    matched n

  unfoldable pub delete : String → M S (Unit {0})
  unfolding with_cause
  delete id = do n ← map_err internal_error (coll.delete_one (by_id id)); matched n

  -- the rest of a function that has deferred cur.Close
  abbrev pub closing : {A : Type 0} → Cursor → M S A → M S A
  closing cur m s = let (r, s') = m s in (r, coll.close cur s')

  unfoldable pub list : ListAccountFilter → M S (List Account × ℤ)
  unfolding to_domain find_options with_cause
  list f = do
    total ← map_err internal_error (coll.count_documents (status_filter f.status))
    cur ← map_err internal_error (coll.find (status_filter f.status) (find_options f))
    docs ← closing cur (map_err internal_error (coll.all cur))
    pure (map to_domain docs, pos total)

  -- EnsureIndexes
  unfoldable pub ensure_indexes : M S (Unit {0})
  unfolding with_cause
  ensure_indexes = map_err internal_error (coll.create_indexes index_models)

  -- NewAccountRepository
  abbrev pub repository : AccountRepository S
  repository = record {
    create = create;
    get_by_id = get_by_id;
    get_by_email = get_by_email;
    update = update;
    delete = delete;
    list = list;
  }
