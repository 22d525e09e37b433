-- ===== src/Ginx/Ops.antt =====
-- Which paths are left out of the request log and of the metrics.
use text.Mathlib.TextPositions.{len-append, slice-append_left}
use text.Mathlib.TextEquality.{slice-prefix}
use go_clean_arch_template.Prelude.{
  String, true, ◌≡◌, refl, subst, inl, inr, ◌↔◌, ◌⊎◌, ◌==◌, eq_iff, arith, ◌≤◌,
}
use go_clean_arch_template.Prelude.Text.{byte_len, slice, ◌^^◌}
use go_clean_arch_template.Ginx.{is_key, is_ops, ops_paths}

-- The paths of the handlers that ops.go mounts.
pub data IsOps : String → Type 0 where
  liveness : IsOps "/liveness"
  readiness : IsOps "/readiness"
  health : IsOps "/health"
  metrics : IsOps "/metrics"
  debug : (rest : String) → IsOps ("/debug/" ^^ rest)
  swagger : (rest : String) → IsOps ("/swagger/" ^^ rest)

is_key-IsOps : (p : String) → is_key p ops_paths ≡ true → IsOps p
unfolding is_key
is_key-IsOps p h = elim (named p h) [
  | inl e ↦ subst IsOps ((eq_iff _ p).0 e) liveness
  | inr (inl e) ↦ subst IsOps ((eq_iff _ p).0 e) readiness
  | inr (inr (inl e)) ↦ subst IsOps ((eq_iff _ p).0 e) health
  | inr (inr (inr e)) ↦ subst IsOps ((eq_iff _ p).0 e) metrics
]
  where
    named :
        (p : String)
        → is_key p ops_paths ≡ true
        → (("/liveness" == p) ≡ true)
          ⊎ (("/readiness" == p) ≡ true)
          ⊎ (("/health" == p) ≡ true)
          ⊎ (("/metrics" == p) ≡ true)
    named p h = ground arith

-- A text that is cut out of the beginning of another.
slice_rest :
    (q p : String) → (slice p 0 (byte_len q) == q) ≡ true → (rest : String) × (q ^^ rest ≡ p)
slice_rest q p h =
    subst (λ x. (rest : String) × (x ^^ rest ≡ p)) ((eq_iff _ q).0 h) (slice-prefix p (byte_len q))

is_ops-IsOps : (p : String) → is_ops p ≡ true → IsOps p
unfolding is_ops
is_ops-IsOps p h = elim (cases p h) [
  | inl key ↦ is_key-IsOps p key
  | inr (inl d) ↦ let r = slice_rest "/debug/" p d in subst IsOps r.1 (debug r.0)
  | inr (inr d) ↦ let r = slice_rest "/swagger/" p d in subst IsOps r.1 (swagger r.0)
]
  where
    cases :
        (p : String)
        → is_ops p ≡ true
        → (is_key p ops_paths ≡ true)
          ⊎ ((slice p 0 7 == "/debug/") ≡ true)
          ⊎ ((slice p 0 9 == "/swagger/") ≡ true)
    cases p h = ground arith

sliced : (q rest : String) → (slice (q ^^ rest) 0 (byte_len q) == q) ≡ true
sliced q rest = (eq_iff _ q).1 (slice-append_left q rest)

debug_is_ops : (p : String) → 7 ≤ byte_len p → (slice p 0 7 == "/debug/") ≡ true → is_ops p ≡ true
unfolding is_ops
debug_is_ops p long begins = ground arith

swagger_is_ops :
    (p : String) → 9 ≤ byte_len p → (slice p 0 9 == "/swagger/") ≡ true → is_ops p ≡ true
unfolding is_ops
swagger_is_ops p long begins = ground arith

long : (q rest : String) → byte_len q ≤ byte_len (q ^^ rest)
long q rest = rw (len-append q rest) (omega arith)

IsOps-is_ops : (p : String) → IsOps p → is_ops p ≡ true
unfolding is_ops is_key
IsOps-is_ops _ liveness = refl
IsOps-is_ops _ readiness = refl
IsOps-is_ops _ health = refl
IsOps-is_ops _ metrics = refl
IsOps-is_ops _ (debug rest) =
    debug_is_ops ("/debug/" ^^ rest) (long "/debug/" rest) (sliced "/debug/" rest)
IsOps-is_ops _ (swagger rest) =
    swagger_is_ops ("/swagger/" ^^ rest) (long "/swagger/" rest) (sliced "/swagger/" rest)

-- isOps is true of the four probe paths and of the paths that begin with "/debug/" or "/swagger/",
-- and of no other.
pub is_ops_iff : (p : String) → (is_ops p ≡ true) ↔ IsOps p
is_ops_iff p = (is_ops-IsOps p, IsOps-is_ops p)
