-- ===== src/Examples/Queries.antt =====
-- The theorems on queries by label, applied to a store of three DAGs.
use ebind.Base.{Bool, ◌&&◌, [], ◌∷◌, ◌≡◌, refl}
use ebind.Types.{DagMeta, DagStatus}
use ebind.Store.{MemStore, new_mem_store, list_dags}
use ebind.Query.{matches_labels, list_dags_by_labels}
use ebind.Query.Answers.{count, NewestFirst, query_answers}
use ebind.Examples.{meta_of_status}

abbrev nightly_old : DagMeta
nightly_old = record (meta_of_status DagStatus.done) {
  id = "d1";
  created_at = 3;
  labels = "nightly" ∷ "eu" ∷ [];
}

abbrev nightly_new : DagMeta
nightly_new = record (meta_of_status DagStatus.running) {
  id = "d2";
  created_at = 7;
  labels = "eu" ∷ "nightly" ∷ [];
}

abbrev weekly : DagMeta
weekly = record (meta_of_status DagStatus.failed) {
  id = "d3";
  created_at = 9;
  labels = "weekly" ∷ [];
}

abbrev history : MemStore
history = record new_mem_store {
  metas =
      ("d1", record { meta = nightly_old; rev = 4 })
      ∷ ("d2", record { meta = nightly_new; rev = 1 })
      ∷ ("d3", record { meta = weekly; rev = 2 })
      ∷ [];
}

newest_first : list_dags_by_labels ("nightly" ∷ []) history ≡ nightly_new ∷ nightly_old ∷ []
unfolding list_dags_by_labels
newest_first = refl

no_labels : list_dags_by_labels [] history ≡ weekly ∷ nightly_new ∷ nightly_old ∷ []
unfolding list_dags_by_labels
no_labels = refl

query_answers_example :
    NewestFirst (list_dags_by_labels ("nightly" ∷ "eu" ∷ []) history)
    × ((p : DagMeta → Bool)
        → count p (list_dags_by_labels ("nightly" ∷ "eu" ∷ []) history)
          ≡ count (λ m. matches_labels m ("nightly" ∷ "eu" ∷ []) && p m) (list_dags history))
query_answers_example = query_answers ("nightly" ∷ "eu" ∷ []) history
