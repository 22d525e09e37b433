-- ===== src/Tests/Documents.antt =====
-- The theorem about the MongoDB repository, over a collection of one document at most.
use go_clean_arch_template.Prelude.{
  String, Bool, ◌≡◌, refl, true, false, Option, none, some, List, [], ◌∷◌, ◌==◌, eq_iff, arith, ◌∙◌,
  if◌then◌else◌,
}
use go_clean_arch_template.Effect.{ok}
use go_clean_arch_template.Ports.Contract.{IsRepository}
use go_clean_arch_template.Mongo.{
  AccountDoc, Collection, Document, Value, text_value, int_value, time_value, to_domain, repository,
  err_no_documents,
}
use go_clean_arch_template.Mongo.Contract.{assign, assign_all, IsMongo}
use go_clean_arch_template.Mongo.Refines.{view, mongo_repository-IsRepository}
use go_clean_arch_template.Tests.OneRow.{
  row_at, insert, choose, modify, row_at-IsKeyed, insert-Inserts, choose-Selects, modify-Changes,
}

abbrev Store : Type 0
Store = Option AccountDoc

-- the fields that the repository filters by
abbrev meets : Document → AccountDoc → Bool
meets ((name, text_value v) ∷ []) d = if name == "_id" then d.id == v else d.email == v
meets _ d = true

abbrev id_in : Document → String
id_in ((name, text_value v) ∷ []) = v
id_in _ = ""

abbrev one_document : Collection Store (List AccountDoc)
one_document = record {
  insert_one = insert to_domain;
  find_one = λ filter s. (choose to_domain err_no_documents (meets filter) s, s);
  update_one = λ filter set. modify to_domain (id_in filter) (λ d. some (assign_all set d));
  delete_one = λ filter. modify to_domain (id_in filter) (λ d. none);
  count_documents = λ filter s. (ok 0, s);
  find = λ filter o s. (ok [], s);
  all = λ cur s. (ok cur, s);
  close = λ cur s. s;
  create_indexes = λ models s. (ok tt, s);
  is_duplicate_key_error = λ e. false;
}

assign-id : (name : String) (v : Value) (d : AccountDoc) → (assign name v d).id ≡ d.id
assign-id name (text_value v) d = ground arith
assign-id name (int_value v) d = ground arith
assign-id name (time_value v) d = ground arith

assign_all-id : (set : Document) (d : AccountDoc) → (assign_all set d).id ≡ d.id
assign_all-id [] d = refl
assign_all-id ((name, v) ∷ set) d = assign_all-id set (assign name v d) ∙ assign-id name v d

one_document-IsMongo : IsMongo one_document (row_at to_domain)
unfolding to_domain
one_document-IsMongo = record {
  keyed = row_at-IsKeyed to_domain;
  insert_one = insert-Inserts to_domain;
  find_id = λ id.
      choose-Selects to_domain "mongo: no documents in result" (λ d. d.id ≡ id) (λ d. d.id == id)
        (λ d. (eq_iff d.id id).0) (λ d. (eq_iff d.id id).1);
  find_email = λ email.
      choose-Selects to_domain "mongo: no documents in result" (λ d. d.email ≡ email)
        (λ d. d.email == email) (λ d. (eq_iff d.email email).0) (λ d. (eq_iff d.email email).1);
  find_one_reads = λ filter s. refl;
  update_one = λ id set.
      modify-Changes to_domain id (λ d. some (assign_all set d)) (λ d h. assign_all-id set d ∙ h);
  delete_one = λ id. modify-Changes to_domain id (λ d. none) (λ d h. tt);
  count_reads = λ filter s. refl;
  find_reads = λ filter o s. refl;
  all_reads = λ cur s. refl;
  close_reads = λ cur s. refl;
}

mongo_repository-IsRepository_example :
    IsRepository
      (repository one_document)
      (view one_document (row_at to_domain) one_document-IsMongo)
mongo_repository-IsRepository_example =
    mongo_repository-IsRepository one_document (row_at to_domain) one_document-IsMongo
