-- ===== src/Query/Answers.antt =====
-- What a query by labels of workflow/query.go answers.
use ebind.Base.{
  ℕ, ◌+◌, ◌≤◌, String, Bool, true, List, [], ◌∷◌, contains, all, all-contains, all_of_contains,
  sort_by, insert_sorted, if◌then◌else◌, ◌&&◌, arith, ◌≡◌, refl, ◌↔◌, Bool-cases, inl, inr,
}
use ebind.Types.{DagMeta}
use ebind.Store.{MemStore, list_dags}
use ebind.Query.{matches_labels, keep_matching, created_after, list_dags_by_labels}

matches-all :
    (m : DagMeta) (want : List String) → matches_labels m want ≡ all (contains m.labels) want
unfolding matches_labels
matches-all m [] = refl
matches-all m (w ∷ want) = refl

-- A DAG matches labels just if each of them is one of its labels.
pub matches_labels_exact :
    (m : DagMeta) (want : List String)
    → (matches_labels m want ≡ true)
      ↔ ((w : String) → contains want w ≡ true → contains m.labels w ≡ true)
matches_labels_exact m want =
    rw (matches-all m want)
      ((λ h w. all-contains (contains m.labels) want w h, all_of_contains (contains m.labels) want))

-- How many of the DAGs pass a test.
abbrev pub count : (DagMeta → Bool) → List DagMeta → ℕ
count p [] = 0
count p (m ∷ ms) = let rest = count p ms in if p m then 1 + rest else rest

-- No DAG of the list is newer than `m`.
abbrev pub NoneNewer : DagMeta → List DagMeta → Type 0
NoneNewer m [] = Unit {0}
NoneNewer m (n ∷ ms) = (n.created_at ≤ m.created_at) × NoneNewer m ms

abbrev pub NewestFirst : List DagMeta → Type 0
NewestFirst [] = Unit {0}
NewestFirst (m ∷ ms) = NoneNewer m ms × NewestFirst ms

count-keep :
    (p : DagMeta → Bool) (labels : List String) (ms : List DagMeta)
    → count p (keep_matching labels ms) ≡ count (λ m. matches_labels m labels && p m) ms
unfolding keep_matching
count-keep p labels [] = refl
count-keep p labels (m ∷ ms) = ground (arith, count-keep p labels ms)

count-insert :
    (p : DagMeta → Bool) (m : DagMeta) (ms : List DagMeta)
    → count p (insert_sorted created_after m ms) ≡ count p (m ∷ ms)
unfolding insert_sorted
count-insert p m [] = refl
count-insert p m (n ∷ ms) = ground (arith, count-insert p m ms)

count-sort :
    (p : DagMeta → Bool) (ms : List DagMeta) → count p (sort_by created_after ms) ≡ count p ms
unfolding sort_by
count-sort p [] = refl
count-sort p (m ∷ ms) = ground (arith, count-insert p m (sort_by created_after ms), count-sort p ms)

NoneNewer-older :
    (a b : DagMeta) (ms : List DagMeta)
    → a.created_at ≤ b.created_at
    → NoneNewer a ms
    → NoneNewer b ms
NoneNewer-older a b [] h none_newer = none_newer
NoneNewer-older a b (m ∷ ms) h none_newer = (omega arith, NoneNewer-older a b ms h none_newer.1)

NoneNewer-insert :
    (a m : DagMeta) (ms : List DagMeta)
    → m.created_at ≤ a.created_at
    → NoneNewer a ms
    → NoneNewer a (insert_sorted created_after m ms)
unfolding insert_sorted
NoneNewer-insert a m [] h rest = (h, rest)
NoneNewer-insert a m (n ∷ ms) h rest = elim (Bool-cases (created_after n m)) [
  | inl newer ↦ rw newer (rest.0, NoneNewer-insert a m ms h rest.1)
  | inr older ↦ rw older (h, rest)
]

NewestFirst-insert :
    (m : DagMeta) (ms : List DagMeta)
    → NewestFirst ms
    → NewestFirst (insert_sorted created_after m ms)
unfolding insert_sorted
NewestFirst-insert m [] h = (h, h)
NewestFirst-insert m (n ∷ ms) h = elim (Bool-cases (created_after n m)) [
  | inl newer ↦ rw newer (NoneNewer-insert n m ms (ground arith) h.0, NewestFirst-insert m ms h.1)
  | inr older ↦ rw older ((ground arith, NoneNewer-older n m ms (ground arith) h.0), h)
]

NewestFirst-sort : (ms : List DagMeta) → NewestFirst (sort_by created_after ms)
unfolding sort_by
NewestFirst-sort [] = record {}
NewestFirst-sort (m ∷ ms) = NewestFirst-insert m (sort_by created_after ms) (NewestFirst-sort ms)

-- ListDAGsByLabels answers newest first, and has each DAG of the store that matches the labels as
-- often as the store lists it, and no other: whatever the test, as many of its answers pass as of
-- the matching DAGs.
pub query_answers :
    (labels : List String) (s : MemStore)
    → NewestFirst (list_dags_by_labels labels s)
      × ((p : DagMeta → Bool)
          → count p (list_dags_by_labels labels s)
            ≡ count (λ m. matches_labels m labels && p m) (list_dags s))
unfolding list_dags_by_labels
query_answers labels s = (
  NewestFirst-sort (keep_matching labels (list_dags s)),
  λ p. rw (count-sort p (keep_matching labels (list_dags s))) (count-keep p labels (list_dags s)),
)
