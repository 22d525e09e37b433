-- ===== src/Ginx/Chain.antt =====
-- What a request leaves behind in the request log and the metrics, and its correlation id.
use go_clean_arch_template.Prelude.{
  String, ◌≡◌, refl, Option, none, some, ◌==◌, if◌then◌else◌, Bool-cases, inl, inr, get_or,
}
use go_clean_arch_template.Http.{Gin}
use go_clean_arch_template.Http.Contract.{Reply}
use go_clean_arch_template.Ginx.{
  Values, Request, header_key, ensured, ensure, with_id, get_id, chosen_id, correlated,
}
use go_clean_arch_template.Ginx.Contract.{seen, IsRequest}

-- The first of the header, the context's own id and the fresh one that is not empty.
abbrev pub first_id : (header : String) → (own : Option String) → (uuid : String) → String
first_id header own uuid =
    if header == "" then (if get_or own "" == "" then uuid else get_or own "") else header

module _ {C K : Type 0} (gin : Gin C) (request : Request C K) (values : Values K)
    (reply : C → Reply) (echoed : C → String)
    (laws : IsRequest gin request values reply echoed) where
  abbrev pub id_of : (uuid : String) → C → String
  id_of uuid c = first_id (request.get_header header_key c) (values.value (request.ctx c)) uuid

  handed-seen :
      (k : K) (id to : String) (c : C)
      → get_id values k ≡ to
      → id ≡ to
      → seen request values echoed (request.set_header header_key id (request.with_ctx k c))
        ≡ record {
          method = request.method c;
          path = request.full_path c;
          correlation_id = to;
          echoed = to;
        }
  unfolding get_id
  handed-seen k id to c h e =
      rw
        (
          laws.method-set_header, laws.path-set_header, laws.ctx-set_header, laws.echoed-set_header,
          laws.method-with_ctx, laws.path-with_ctx, laws.ctx-with_ctx, h, e,
        )
        refl

  with_value-get_id : (id : String) (k : K) → get_id values (values.with_value id k) ≡ id
  unfolding get_id
  with_value-get_id id k = rw (laws.value-with_value) refl

  ensured-id :
      (uuid : String) (k : K) (own : Option String)
      → values.value k ≡ own
      → let id = first_id "" own uuid in
        (get_id values (ensured values uuid k own).0 ≡ id) × ((ensured values uuid k own).1 ≡ id)
  unfolding get_id
  ensured-id uuid k none absent = (with_value-get_id uuid k, refl)
  ensured-id uuid k (some id) present = elim (Bool-cases (id == "")) [
    | inl empty ↦ rw empty (with_value-get_id uuid k, refl)
    | inr fine ↦ rw (fine, present) (refl, refl)
  ]

  chosen_id-id :
      (uuid : String) (c : C)
      → (get_id values (chosen_id gin request values uuid c).0 ≡ id_of uuid c)
        × ((chosen_id gin request values uuid c).1 ≡ id_of uuid c)
  unfolding chosen_id ensure with_id
  chosen_id-id uuid c = elim (Bool-cases (request.get_header header_key c == "")) [
    | inl empty ↦ rw empty (ensured-id uuid (request.ctx c) _ refl)
    | inr given ↦ rw given (with_value-get_id _ _, refl)
  ]

  -- The context handed on by CorrelationMiddleware has the method and the path of the request, and one
  -- id both in its values and in the reply's header: the inbound header's if that is not
  -- empty, else the one that the request's context has already, else the fresh one.
  pub seen-correlated :
      (uuid : String) (c : C)
      → seen request values echoed (correlated gin request values uuid c) ≡ record {
        method = request.method c;
        path = request.full_path c;
        correlation_id = id_of uuid c;
        echoed = id_of uuid c;
      }
  unfolding correlated
  seen-correlated uuid c =
      handed-seen _ _ (id_of uuid c) c (chosen_id-id uuid c).0 (chosen_id-id uuid c).1
