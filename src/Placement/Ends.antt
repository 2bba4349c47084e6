-- ===== src/Placement/Ends.antt =====
-- The fuel of `resolve_placement_target` is never used up: each step that is followed is marked as
-- seen, and is looked up among the steps of the DAG.
use ebind.Base.{
  ℕ, zero, suc, ◌≤◌, ◌<◌, String, Bool, true, false, not, Option, none, some, is_some, List, [],
  ◌∷◌, Map, lookup, contains, length, arith, ◌≡◌, refl, subst, eq_refl, ◌==◌, Bool-cases, inl, inr,
  if◌then◌else◌,
}
use ebind.Types.{
  PlacementMode, direct, colocate_with, follow_target_of, colocate_here, PlacementSpec, StepRecord,
  Result,
}
use ebind.Placement.{placement_key, followed, follow_upstream, by_mode, resolve_placed}

-- A step that may still be followed.
abbrev pub is_fresh : List String → StepRecord → Option PlacementSpec → Bool
is_fresh seen step none = false
is_fresh seen step (some spec) = not (contains seen (placement_key step spec.mode))

abbrev pub fresh_count : List String → Map StepRecord → ℕ
fresh_count seen [] = 0
fresh_count seen ((id, step) ∷ m) =
    let n = fresh_count seen m in if is_fresh seen step step.placement then suc n else n

is_fresh-cons :
    (key : String) (seen : List String) (step : StepRecord) (o : Option PlacementSpec)
    → is_fresh (key ∷ seen) step o ≡ true
    → is_fresh seen step o ≡ true
unfolding contains
is_fresh-cons key seen step none h = cc
is_fresh-cons key seen step (some spec) h = ground arith

fresh_count-length : (seen : List String) (m : Map StepRecord) → fresh_count seen m ≤ length m
fresh_count-length seen [] = omega arith
fresh_count-length seen ((id, step) ∷ m) = ground (arith, fresh_count-length seen m)

fresh_count-cons :
    (key : String) (seen : List String) (m : Map StepRecord)
    → fresh_count (key ∷ seen) m ≤ fresh_count seen m
fresh_count-cons key seen [] = omega arith
fresh_count-cons key seen ((id, step) ∷ m) =
    ground (arith, fresh_count-cons key seen m, is_fresh-cons key seen step step.placement)

not-is_fresh :
    (seen : List String) (step : StepRecord) (spec : PlacementSpec)
    → is_fresh (placement_key step spec.mode ∷ seen) step (some spec) ≡ false
unfolding contains
not-is_fresh seen step spec = rw (eq_refl (placement_key step spec.mode)) refl

head_less :
    (seen : List String) (m : Map StepRecord) (j : String) (step : StepRecord)
    (spec : PlacementSpec)
    → step.placement ≡ some spec
    → contains seen (placement_key step spec.mode) ≡ false
    → fresh_count (placement_key step spec.mode ∷ seen) ((j, step) ∷ m)
      < fresh_count seen ((j, step) ∷ m)
head_less seen m j step spec placed fresh =
    rw (placed, not-is_fresh seen step spec, fresh)
      (omega (arith, fresh_count-cons (placement_key step spec.mode) seen m))

same_step : {a b : StepRecord} → some a ≡ some b → b ≡ a
same_step e = cc

-- Marking a step that was fresh leaves fewer.
fresh_count-less :
    (seen : List String) (m : Map StepRecord) (id : String) (step : StepRecord)
    (spec : PlacementSpec)
    → lookup id m ≡ some step
    → step.placement ≡ some spec
    → contains seen (placement_key step spec.mode) ≡ false
    → fresh_count (placement_key step spec.mode ∷ seen) m < fresh_count seen m
unfolding lookup
fresh_count-less seen [] id step spec found placed fresh = absurd (cc)
fresh_count-less seen ((j, other) ∷ m) id step spec found placed fresh =
    elim (Bool-cases (j == id)) [
      | inl hit ↦
          subst
            (λ x.
              fresh_count (placement_key step spec.mode ∷ seen) ((j, x) ∷ m)
              < fresh_count seen ((j, x) ∷ m))
            (same_step (rw hit at found)) (head_less seen m j step spec placed fresh)
      | inr miss ↦
          let rest = fresh_count-less seen m id step spec (rw miss at found) placed fresh in
          ground
            (arith, rest, is_fresh-cons (placement_key step spec.mode) seen other other.placement)
    ]

-- The upstream steps of a call are answered, so the call is.
mode_answers :
    (rec : StepRecord) (steps : Map StepRecord) (spec : PlacementSpec) (mode : PlacementMode)
    (go : Option (Result String))
    → is_some go ≡ true
    → is_some (by_mode rec steps spec mode go) ≡ true
mode_answers rec steps spec direct go h = refl
mode_answers rec steps spec colocate_with go h = refl
mode_answers rec steps spec follow_target_of go h = h
mode_answers rec steps spec colocate_here go h = refl
mode_answers rec steps spec (PlacementMode.other s) go h = refl

followed_answers :
    (rec : StepRecord) (o : Option PlacementSpec) (go : PlacementSpec → Option (Result String))
    → ((next : PlacementSpec) → o ≡ some next → is_some (go next) ≡ true)
    → is_some (followed rec o go) ≡ true
followed_answers rec none go h = refl
followed_answers rec (some next) go h = h next refl

upstream_answers :
    (rec : StepRecord) (o : Option StepRecord)
    (go : StepRecord → PlacementSpec → Option (Result String))
    → ((next : StepRecord) (spec : PlacementSpec)
        → o ≡ some next
        → next.placement ≡ some spec
        → is_some (go next spec) ≡ true)
    → is_some (follow_upstream rec o go) ≡ true
upstream_answers rec none go h = refl
upstream_answers rec (some next) go h =
    followed_answers rec next.placement (go next) (λ spec placed. h next spec refl placed)

module _ (steps : Map StepRecord) where
  call_answers :
      (n : ℕ) (seen : List String) (rec : StepRecord) (spec : PlacementSpec)
      → (contains seen (placement_key rec spec.mode) ≡ false
          → (next : StepRecord) (nspec : PlacementSpec) → lookup spec.step_id steps ≡ some next
          → next.placement ≡ some nspec
          → is_some (resolve_placed n steps next nspec (placement_key rec spec.mode ∷ seen)) ≡ true)
      → is_some (resolve_placed (suc n) steps rec spec seen) ≡ true
  unfolding resolve_placed
  call_answers n seen rec spec below =
      elim (Bool-cases (contains seen (placement_key rec spec.mode))) [
        | inl again ↦ rw again refl
        | inr fresh ↦ rw fresh (
            mode_answers rec steps spec spec.mode _
              (upstream_answers rec (lookup spec.step_id steps) _ (below fresh)))
      ]

  -- Enough fuel for the steps that are still fresh, from a step among them.
  placed_answers :
      (n : ℕ) (seen : List String) (id : String) (rec : StepRecord) (spec : PlacementSpec)
      → lookup id steps ≡ some rec
      → rec.placement ≡ some spec
      → fresh_count seen steps < n
      → is_some (resolve_placed n steps rec spec seen) ≡ true
  placed_answers zero seen id rec spec found placed enough = absurd (omega arith)
  placed_answers (suc n) seen id rec spec found placed enough =
      call_answers n seen rec spec (λ fresh next nspec found' placed'.
        placed_answers n (placement_key rec spec.mode ∷ seen) spec.step_id next nspec found' placed'
          (omega (arith, enough, fresh_count-less seen steps id rec spec found placed fresh)))

  -- The search for the target of a placement ends within its fuel, whatever the steps, cycles
  -- included.
  pub placement_answers :
      (rec : StepRecord) (spec : PlacementSpec)
      → is_some (resolve_placed (suc (suc (length steps))) steps rec spec []) ≡ true
  placement_answers rec spec =
      call_answers (suc (length steps)) [] rec spec (λ fresh next nspec found placed.
        placed_answers (suc (length steps)) (placement_key rec spec.mode ∷ []) spec.step_id next
          nspec found placed
          (omega (arith, fresh_count-length (placement_key rec spec.mode ∷ []) steps)))
