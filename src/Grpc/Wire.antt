-- ===== src/Grpc/Wire.antt =====
-- Numbers on the wire: an int of the program as an int32.
use go_clean_arch_template.Prelude.{
  ℕ, List, [], ◌∷◌, map, none, ap, sym, ◌∙◌, ◌≡◌, refl, true, ◌<◌, arith,
}
use go_clean_arch_template.Prelude.Int.{pos, to_int32}
use go_clean_arch_template.Effect.{ok}
use go_clean_arch_template.Ports.{AccountUseCase}
use go_clean_arch_template.Domain.{Account, AccountStatus, valid}
use go_clean_arch_template.Domain.Status.{valid_iff}
use go_clean_arch_template.Grpc.{
  ProtoAccount, ListAccountsRequest, ListAccountsResponse, listed, list_accounts, status_given,
  to_proto_account, to_proto_accounts, to_proto_status, to_domain_status,
}

to_int32_small : (n : ℕ) → n < 2147483648 → to_int32 (pos n) ≡ pos n
to_int32_small n h = ground arith

-- A status that can be assigned comes back from the wire as it was.
pub to_domain_status-to_proto_status :
    (s : AccountStatus) → valid s ≡ true → to_domain_status (to_proto_status s) ≡ s
unfolding to_domain_status to_proto_status
to_domain_status-to_proto_status s h =
    let (n, e, low, high) = (valid_iff s).0 h in
    ap to_int32 e ∙ to_int32_small n (omega arith) ∙ sym e

-- an account as a client reads it
abbrev pub read_account : ProtoAccount → Account
read_account p = record {
  id = p.id;
  email = p.email;
  first_name = p.first_name;
  last_name = p.last_name;
  password_hash = "";
  status = to_domain_status p.status;
  created_at = p.created_at;
  updated_at = p.updated_at;
  deleted_at = none;
}

abbrev pub wire_fields : Account → Account
wire_fields a = record a { password_hash = ""; deleted_at = none }

abbrev pub AllValid : List Account → Type 0
AllValid [] = Unit {0}
AllValid (a ∷ rest) = (valid a.status ≡ true) × AllValid rest

read_accounts :
    (page : List Account)
    → AllValid page
    → map read_account (to_proto_accounts page) ≡ map wire_fields page
unfolding to_proto_accounts to_proto_account
read_accounts [] all = refl
read_accounts (a ∷ rest) (v, all) =
    cc (to_domain_status-to_proto_status a.status v, read_accounts rest all)

-- If the use case lists a page of accounts whose statuses can be assigned, with a total below
-- 2^31, ListAccounts answers with that total and with accounts from which a client reads every
-- field but the password hash and the time of deletion.
pub list_accounts-read_account :
    {S : Type 0} (uc : AccountUseCase S) (req : ListAccountsRequest) (s : S) (page : List Account)
    (n : ℕ)
    → (uc.list
        (record { status = status_given req.status; limit = req.limit; offset = req.offset })
        s).0
      ≡ ok (page, pos n)
    → n < 2147483648
    → AllValid page
    → (resp : ListAccountsResponse) × ((list_accounts uc req s).0 ≡ ok (listed resp))
      × (resp.total ≡ pos n)
      × (map read_account resp.accounts ≡ map wire_fields page)
unfolding list_accounts
list_accounts-read_account uc req s page n h small all = (
  record { accounts = to_proto_accounts page; total = to_int32 (pos n) },
  rw h refl,
  to_int32_small n small,
  read_accounts page all,
)
