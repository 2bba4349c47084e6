-- ===== src/Contract/Memory.antt =====
-- The store in memory of workflow/store_mem.go keeps the contract.
use ebind.Base.{ℕ, String, Bool, true, ◌&&◌, ◌==◌, Option, none, some, lookup}
use ebind.Types.{Json, StepRecord, DagMeta, SignalRecord}
use ebind.Store.{
  MemEntry, MemMetaEntry, MemStore, next_rev, find_in, put_step, put_meta, put_signal,
}
use ebind.Contract.{Writes, View, Contract}

abbrev pub both : String × String → String × String → Bool
both (d, k) (d', k') = d == d' && k == k'

abbrev pub memory : Writes MemStore
memory = record {
  put_step = λ d k rec expected s. put_step d k s rec expected;
  put_meta = λ d meta expected s. put_meta d s meta expected;
  put_signal = λ d rec s. put_signal d s rec;
}

abbrev entry_cell : Option MemEntry → Option (StepRecord × ℕ)
entry_cell none = none
entry_cell (some e) = some (e.rec, e.rev)

abbrev meta_cell : Option MemMetaEntry → Option (DagMeta × ℕ)
meta_cell none = none
meta_cell (some e) = some (e.meta, e.rev)

-- Neither a result nor a signal has a revision.
abbrev result_cell : Option Json → Option (Json × ℕ)
result_cell none = none
result_cell (some r) = some (r, 1)

abbrev signal_cell : Option SignalRecord → Option (SignalRecord × ℕ)
signal_cell none = none
signal_cell (some r) = some (r, 1)

abbrev pub memory_view : View MemStore StepRecord DagMeta SignalRecord Json
memory_view = record {
  of_step = λ rec. rec;
  of_meta = λ meta. meta;
  of_signal = λ rec. rec;
  steps = record {
    at = λ s (d, k). entry_cell (find_in d k s.steps);
    is_known = λ i. true;
    same = both;
  };
  metas = record {
    at = λ s d. meta_cell (lookup d s.metas);
    is_known = λ d. true;
    same = λ d d'. d == d';
  };
  signals = record {
    at = λ s (d, k). signal_cell (find_in d k s.signals);
    is_known = λ i. true;
    same = both;
  };
  results = record {
    at = λ s (d, k). result_cell (find_in d k s.results);
    is_known = λ i. true;
    same = both;
  };
  refuses_missing = true;
}

abbrev meta_rev : Option MemMetaEntry → ℕ
meta_rev none = 1
meta_rev (some e) = next_rev e.rev
