-- ===== src/Mongo/Contract.antt =====
-- What the repository relies on of the MongoDB driver over the accounts collection: the primary key
-- `_id` and the unique index on email that EnsureIndexes makes, operations on one document that are
-- atomic, the driver's sentinel, and errors that hold no AppError. Any operation may fail.
use go_clean_arch_template.Prelude.{String, ◌≡◌, none, some, [], ◌∷◌, ◌==◌, if◌then◌else◌}
use go_clean_arch_template.Ports.Table.{Table, Inserts, Selects, Changes, IsKeyed}
use go_clean_arch_template.Mongo.{
  AccountDoc, Collection, Document, FindOptions, Value, text_value, int_value, time_value,
  err_no_documents, by_id, by_email, to_domain,
}

-- `$set` of one field
abbrev pub assign : String → Value → AccountDoc → AccountDoc
assign name (text_value v) d =
    if name == "first_name"
    then record d { first_name = v }
    else if name == "last_name"
    then record d { last_name = v }
    else d
assign name (int_value v) d = if name == "status" then record d { status = v } else d
assign name (time_value v) d = if name == "updated_at" then record d { updated_at = v } else d

abbrev pub assign_all : Document → AccountDoc → AccountDoc
assign_all [] d = d
assign_all ((name, value) ∷ rest) d = assign_all rest (assign name value d)

pub record IsMongo {S Cursor : Type 0} (coll : Collection S Cursor) (docs : S → Table AccountDoc)
    : Type 0 where
  -- a document stands under its `_id`
  pub keyed : (s : S) → IsKeyed to_domain (docs s)
  pub insert_one :
      (d : AccountDoc) (s : S)
      → Inserts to_domain d.id d (docs s) (docs (coll.insert_one d s).1) (coll.insert_one d s).0
  pub find_id :
      (id : String) (s : S)
      → Selects err_no_documents (λ d. d.id ≡ id) (docs s) (coll.find_one (by_id id) s).0
  pub find_email :
      (email : String) (s : S)
      → Selects err_no_documents
          (λ d. d.email ≡ email)
          (docs s)
          (coll.find_one (by_email email) s).0
  pub find_one_reads : (filter : Document) (s : S) → docs (coll.find_one filter s).1 ≡ docs s
  pub update_one :
      (id : String) (set : Document) (s : S)
      → Changes id
          (λ d. some (assign_all set d))
          (docs s)
          (docs (coll.update_one (by_id id) set s).1)
          (coll.update_one (by_id id) set s).0
  pub delete_one :
      (id : String) (s : S)
      → Changes id
          (λ d. none)
          (docs s)
          (docs (coll.delete_one (by_id id) s).1)
          (coll.delete_one (by_id id) s).0
  pub count_reads : (filter : Document) (s : S) → docs (coll.count_documents filter s).1 ≡ docs s
  pub find_reads :
      (filter : Document) (o : FindOptions) (s : S) → docs (coll.find filter o s).1 ≡ docs s
  pub all_reads : (cur : Cursor) (s : S) → docs (coll.all cur s).1 ≡ docs s
  pub close_reads : (cur : Cursor) (s : S) → docs (coll.close cur s) ≡ docs s
