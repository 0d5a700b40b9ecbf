-- ===== src/Queue/Tests.antt =====
-- The theorems on src/queue.rs at a ring of sixteen bytes that holds two records across its end.
use pg_otel.Prelude.{
  ℕ, ◌≡◌, refl, List, [], ◌∷◌, ◌++◌, false, arith, length, Result, ok, returns, All,
}
use pg_otel.Prelude.Bytes.{to_le_bytes}
use pg_otel.Queue.{
  Ring, Batch, QueueFull, Corrupted, free, reset, is_consistent, push_batch, push_record,
  drain_into, records, batch_new,
}
use pg_otel.Queue.Frames.{frames, IsPayload, Carries}
use pg_otel.Queue.Batches.{RecordResult, batch_new-Carries, push_record_refines}
use pg_otel.Queue.Budget.{Takes}
use pg_otel.Queue.Push.{Holds, PushResult, push_batch_refines, push_batch_repairs, push_batch_total}
use pg_otel.Queue.Drain.{drain_into_refines}
use pg_otel.Queue.Total.{DrainResult, drain_into_total}
use pg_otel.Queue.Stream.{Yields, records_total}

abbrev two_payloads : List (List ℕ)
two_payloads = (1 ∷ 2 ∷ []) ∷ (3 ∷ []) ∷ []

abbrev two_records : Ring
two_records = record {
  state = record { head = 12; tail = 23 };
  cells = 1 ∷ 2 ∷ 1 ∷ 0 ∷ 0 ∷ 0 ∷ 3 ∷ 0 ∷ 0 ∷ 0 ∷ 0 ∷ 0 ∷ 2 ∷ 0 ∷ 0 ∷ 0 ∷ [];
}

abbrev out_of_order : Ring
out_of_order = record two_records { state = record { head = 24; tail = 23 } }

abbrev one_payload : List (List ℕ)
one_payload = (9 ∷ []) ∷ []

abbrev one_record : Batch
one_record = record { bytes = 1 ∷ 0 ∷ 0 ∷ 0 ∷ 9 ∷ []; records = 1 }

two_payloads-IsPayload : All IsPayload two_payloads
two_payloads-IsPayload = (omega arith, (omega arith, tt))

two_records-Holds : Holds two_records two_payloads
unfolding to_le_bytes
two_records-Holds = record {
  consistent = omega arith;
  stored = refl;
  accepted = two_payloads-IsPayload;
}

one_record-Carries : Carries one_record one_payload
unfolding to_le_bytes
one_record-Carries = record { encoded = refl; number = refl; sized = (omega arith, tt) }

out_of_order_lem : is_consistent out_of_order ≡ false
unfolding is_consistent
out_of_order_lem = refl

push_batch_refines_example :
    (out : Ring × Result (Unit {0}) QueueFull) × (push_batch two_records one_record ≡ returns out)
    × PushResult two_records one_record two_payloads one_payload out
push_batch_refines_example = push_batch_refines two_records-Holds one_record-Carries (omega arith)

push_batch_repairs_example :
    (out : Ring × Result (Unit {0}) QueueFull) × (push_batch out_of_order one_record ≡ returns out)
    × PushResult (reset out_of_order) one_record [] one_payload out
    × (free (reset out_of_order) ≡ 16)
push_batch_repairs_example =
    push_batch_repairs out_of_order out_of_order_lem one_record-Carries (omega arith)

push_batch_total_example :
    (out : Ring × Result (Unit {0}) QueueFull) × (push_batch out_of_order one_record ≡ returns out)
push_batch_total_example = push_batch_total out_of_order one_record

drain_into_refines_example :
    (taken : List (List ℕ)) × (left : List (List ℕ)) × (r' : Ring) × (drain_into two_records
        (7 ∷ [])
        8
      ≡ returns (r', (7 ∷ []) ++ frames taken, ok (length taken)))
    × Takes 8 two_payloads taken left
    × Holds r' left
drain_into_refines_example = drain_into_refines (7 ∷ []) 8 two_records-Holds

drain_into_total_example :
    (res : Ring × List ℕ × Result ℕ Corrupted) × (drain_into out_of_order [] 8 ≡ returns res)
    × DrainResult out_of_order [] res
drain_into_total_example = drain_into_total out_of_order [] 8 (omega arith)

push_record_refines_example :
    RecordResult batch_new [] (4 ∷ 5 ∷ []) (push_record batch_new (λ bytes. bytes ++ (4 ∷ 5 ∷ [])))
push_record_refines_example =
    push_record_refines batch_new (λ bytes. bytes ++ (4 ∷ 5 ∷ [])) [] (4 ∷ 5 ∷ []) batch_new-Carries
      (λ bytes. refl)

records_total_example :
    Yields (1 ∷ 0 ∷ 0 ∷ 0 ∷ 9 ∷ 200 ∷ []) (records (1 ∷ 0 ∷ 0 ∷ 0 ∷ 9 ∷ 200 ∷ []))
records_total_example =
    records_total (1 ∷ 0 ∷ 0 ∷ 0 ∷ 9 ∷ 200 ∷ [])
      (omega arith, (omega arith, (omega arith, (omega arith, (omega arith, (omega arith, tt))))))
