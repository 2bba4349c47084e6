-- ===== src/Query.antt =====
-- workflow/query.go: the DAGs that carry all of some labels, the newest first.
pub mod Answers
use ebind.Base.{
  ℕ, String, Bool, true, false, List, [], ◌∷◌, contains, all, ltb, sort_by, if◌then◌else◌,
}
use ebind.Types.{DagMeta}
use ebind.Store.{MemStore, list_dags}

unfoldable pub matches_labels : DagMeta → List String → Bool
unfolding contains
matches_labels m [] = true
matches_labels m (w ∷ want) = all (contains m.labels) (w ∷ want)

-- The loop that fills `out`.
unfoldable pub keep_matching : List String → List DagMeta → List DagMeta
unfolding matches_labels
keep_matching labels [] = []
keep_matching labels (m ∷ metas) =
    let out = keep_matching labels metas in if matches_labels m labels then m ∷ out else out

-- `out[i].CreatedAt.After(out[j].CreatedAt)`.
abbrev pub created_after : DagMeta → DagMeta → Bool
created_after a b = ltb b.created_at a.created_at

unfoldable pub list_dags_by_labels : List String → MemStore → List DagMeta
unfolding keep_matching sort_by list_dags
list_dags_by_labels labels s = sort_by created_after (keep_matching labels (list_dags s))
