-- ===== src/Worker/Claims.antt =====
-- The claims of a worker: worker/claims.go, and `refreshClaims`, `claimDurable`, `reconcileClaimSubs` and
-- `setDefaults` of worker/worker.go.
use Prim.Native.Char.{code}
use Prim.Native.String.{[] as nil, ◌∷◌ as cons, ◌++◌ as append}
use ebind.Base.{
  ℕ, String, Bool, true, false, not, ◌&&◌, ◌||◌, ◌==◌, List, [], ◌∷◌, ◌++◌, contains, any, eqb, leb,
  sort_strings, contains-sort_strings, contains-append, arith, eq_iff, ◌≡◌, refl, ◌∙◌,
  if◌then◌else◌,
}
use ebind.Placement.{concrete_target}
use ebind.Worker.{owns_target}

-- `unicode.IsSpace`.
abbrev is_space : ℕ → Bool
is_space n =
    (leb 9 n && leb n 13)
    || eqb n 32
    || eqb n 133
    || eqb n 160
    || eqb n 5760
    || (leb 8192 n && leb n 8202)
    || eqb n 8232
    || eqb n 8233
    || eqb n 8239
    || eqb n 8287
    || eqb n 12288

unfoldable pub trim_left : String → String
trim_left nil = nil
trim_left (cons c s) = let rest = trim_left s in if is_space (code c) then rest else cons c s

unfoldable pub trim_right : String → String
trim_right nil = nil
trim_right (cons c s) =
    let rest = trim_right s in if is_space (code c) && rest == "" then nil else cons c rest

-- `strings.TrimSpace`.
abbrev pub trim_space : String → String
trim_space s = trim_right (trim_left s)

-- The loop over the claims, with `seen` and the list that is made, which hold the same claims.
unfoldable pub add_claims : List String → List String → List String
unfolding contains trim_left trim_right
add_claims out [] = out
add_claims out (claim ∷ claims) =
    let skipped = add_claims out claims in
    let added = add_claims (out ++ trim_space claim ∷ []) claims in
    if trim_space claim == ""
    then skipped
    else if contains out (trim_space claim)
    then skipped
    else added

-- `StaticClaims.Claims`.
abbrev pub static_claims : List String → List String
static_claims claims = add_claims [] claims

-- What the provider of a worker answers, if it has one.
pub data Provided : Type 0 where
  no_provider provider_failed : Provided
  provided : List String → Provided

-- `refreshClaims`: whether it went through, and the cache.
unfoldable pub refresh_claims : String → Provided → List String → Bool × List String
unfolding add_claims
refresh_claims worker no_provider cache = (true, sort_strings (concrete_target worker ∷ []))
refresh_claims worker provider_failed cache = (false, cache)
refresh_claims worker (provided claims) cache =
    (true, sort_strings (add_claims (concrete_target worker ∷ []) claims))

-- `claimDurable`, given the base64 of a claim.
abbrev pub claim_durable : (String → String) → String → String
claim_durable target_token claim = append "ebind-targets-" (target_token claim)

-- One of the claims is this one, but for the space around it.
abbrev pub is_claim : String → List String → Bool
is_claim target claims = any (λ c. not (trim_space c == "") && trim_space c == target) claims

add_claims_exact :
    (out claims : List String) (target : String)
    → contains (add_claims out claims) target ≡ (contains out target || is_claim target claims)
unfolding add_claims contains
add_claims_exact out [] target = ground arith
add_claims_exact out (c ∷ claims) target = ground (
  arith,
  add_claims_exact out claims target,
  add_claims_exact (out ++ trim_space c ∷ []) claims target,
  contains-append out (trim_space c ∷ []) target,
  eq_iff (trim_space c) target,
)

owns_target-contains :
    (claims : List String) (target : String) → owns_target claims target ≡ contains claims target
unfolding owns_target contains
owns_target-contains [] target = refl
owns_target-contains (c ∷ claims) target = ground (arith, owns_target-contains claims target)

-- After a refresh with the claims of a provider, a worker owns just the target of its own name
-- and the claims that are not blank, without the space around them.
pub owned_exact :
    (worker : String) (claims cache : List String) (target : String)
    → owns_target (refresh_claims worker (provided claims) cache).1 target
      ≡ (concrete_target worker == target || is_claim target claims)
unfolding refresh_claims contains
owned_exact worker claims cache target =
    owns_target-contains (sort_strings (add_claims (concrete_target worker ∷ []) claims)) target
    ∙ contains-sort_strings (add_claims (concrete_target worker ∷ []) claims) target
    ∙ add_claims_exact (concrete_target worker ∷ []) claims target
    ∙ ground arith

-- `reconcileClaimSubs`, given which subscriptions succeed; those of dropped claims stay. The claims
-- that are subscribed, and whether all are.
unfoldable pub reconcile_claim_subs :
    (String → Bool) → List String → List String → Bool × List String
unfolding contains
reconcile_claim_subs subscribes [] active = (true, active)
reconcile_claim_subs subscribes (claim ∷ claims) active =
    let known = reconcile_claim_subs subscribes claims active in
    let added = reconcile_claim_subs subscribes claims (claim ∷ active) in
    if contains active claim then known else if subscribes claim then added else (false, active)
