-- ===== src/Mongo/Refines.antt =====
-- The MongoDB repository keeps the contract of a repository.
use go_clean_arch_template.Prelude.{ℕ, String, ◌≡◌, refl, ap, ◌∙◌, Option, none, some}
use go_clean_arch_template.Effect.{Result, map_err}
use go_clean_arch_template.Effect.Keeps.{Keeps, bind-Keeps}
use go_clean_arch_template.Domain.{AccountStatus, UpdateAccountParams, ListAccountFilter}
use go_clean_arch_template.Ports.Contract.{Accounts, patch, IsRepository}
use go_clean_arch_template.Ports.Table.{Table, accounts_of}
use go_clean_arch_template.Ports.Table.Keeps.{
  Created-lem, Created-fault, Hides-if, Fetched-lem, FetchedBy-lem, Updated-lem, Deleted-lem,
  after_read, Hides-internal, Reads-if,
}
use go_clean_arch_template.Mongo
use go_clean_arch_template.Mongo.{
  AccountDoc, Collection, Document, to_doc, to_domain, set_document, err_no_documents, by_id,
  by_email, read_error, write_error, internal_error, repository, closing, find_options,
  status_filter,
}
use go_clean_arch_template.Mongo.Contract.{assign_all, IsMongo}

assign_options :
    (id : String) (first last : Option String) (st : Option AccountStatus) (now : ℕ)
    (d : AccountDoc)
    → let p : UpdateAccountParams = record {
      id = id;
      first_name = first;
      last_name = last;
      status = st;
      updated_at = now;
    } in
      to_domain (assign_all (set_document p) d) ≡ patch p (to_domain d)
unfolding to_domain set_document
assign_options id none none none now m = refl
assign_options id none none (some st) now m = refl
assign_options id none (some l) none now m = refl
assign_options id none (some l) (some st) now m = refl
assign_options id (some f) none none now m = refl
assign_options id (some f) none (some st) now m = refl
assign_options id (some f) (some l) none now m = refl
assign_options id (some f) (some l) (some st) now m = refl

module _ {S Cursor : Type 0} (coll : Collection S Cursor) (docs : S → Table AccountDoc)
    (laws : IsMongo coll docs) where
  abbrev pub view : S → Accounts
  view s = accounts_of to_domain (docs s)

  find_one_reads : (filter : Document) (s : S) → docs (Mongo.find_one coll filter s).1 ≡ docs s
  unfolding Mongo.find_one
  find_one_reads filter s =
      let t : Result AccountDoc × S = coll.find_one filter s in
      ap docs (after_read read_error to_domain t.0 t.1) ∙ laws.find_one_reads filter s

  close-Keeps :
      (cur : Cursor) → Keeps docs (closing coll cur (map_err internal_error (coll.all cur)))
  close-Keeps cur s = laws.close_reads cur (coll.all cur s).1 ∙ laws.all_reads cur s

  list_reads : (f : ListAccountFilter) → Keeps docs (Mongo.list coll f)
  unfolding Mongo.list
  list_reads f =
      bind-Keeps docs _ (map_err internal_error (coll.count_documents (status_filter f.status)))
        (laws.count_reads (status_filter f.status))
        λ total.
          bind-Keeps docs _
            (map_err internal_error (coll.find (status_filter f.status) (find_options f)))
            (laws.find_reads (status_filter f.status) (find_options f))
            λ cur.
              bind-Keeps docs _ (closing coll cur (map_err internal_error (coll.all cur)))
                (close-Keeps cur) λ found s. refl

  -- The MongoDB repository keeps the contract of a repository: over the accounts that the documents
  -- hold, Create inserts under a new id and a free email, the two reads return what is stored or
  -- ErrAccountNotFound, Update replaces exactly the given fields, Delete removes one account, every
  -- failed operation changes nothing, and a failure of the driver is never ErrAccountNotFound.
  pub mongo_repository-IsRepository : IsRepository (repository coll) view
  unfolding Mongo.create Mongo.get_by_id Mongo.get_by_email Mongo.find_one Mongo.update Mongo.delete
      to_doc to_domain
  mongo_repository-IsRepository = record {
    create = λ a s.
        Created-lem to_domain docs a (to_doc a) (write_error coll) (docs s) _ _ refl
          (laws.insert_one (to_doc a) s);
    create_fault = λ a s.
        Created-fault to_domain docs a (to_doc a) (write_error coll) (docs s) _ _
          (Hides-if coll.is_duplicate_key_error) (laws.insert_one (to_doc a) s);
    get_by_id = λ id s.
        Fetched-lem to_domain docs err_no_documents id read_error (docs s) _ _
          (Reads-if err_no_documents) (laws.keyed s) (laws.find_id id s);
    get_by_id_reads = λ id s. ap (accounts_of to_domain) (find_one_reads (by_id id) s);
    get_by_email = λ email s.
        FetchedBy-lem to_domain docs err_no_documents email read_error (docs s) _ _
          (Reads-if err_no_documents) (laws.keyed s) (laws.find_email email s);
    get_by_email_reads = λ email s. ap (accounts_of to_domain) (find_one_reads (by_email email) s);
    update = λ p s.
        Updated-lem to_domain docs p (assign_all (set_document p)) internal_error (docs s) _ _
          Hides-internal (assign_options p.id p.first_name p.last_name p.status p.updated_at)
          (laws.update_one p.id (set_document p) s);
    delete = λ id s.
        Deleted-lem to_domain docs id internal_error (docs s) _ _ Hides-internal
          (laws.delete_one id s);
    list_reads = λ f s. ap (accounts_of to_domain) (list_reads f s);
  }
